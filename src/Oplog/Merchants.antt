-- ===== src/Oplog/Merchants.antt =====
-- Which merchant a row of the audit log is for.
use middle.Prelude.{
  true, false, ◌||◌, List, [], Option, none, some, ◌≡◌, ◌≢◌, ◌⊎◌, inl, inr, refl, arith, Bool-cases,
}
use middle.Text.{Text, runes, is_empty, ◌==◌, trim_space}
use middle.Text.Trim.{trim_space_idem}
use middle.Text.Equality.{eq_iff}
use middle.Json.{Json, null, bool, num, str, arr, obj, Fields, end, field, find}
use middle.Usage.{skip_usage_merchant}
use middle.Oplog.{
  first_non_empty, named_merchant, first_named, or_else, inner_merchant, own_merchant, in_meta,
  in_value, lookup_merchant_id, merchant_from_before, operation_merchant,
}

-- A text that names no tenant: empty, or trimmed and not one of the shared merchants.
abbrev pub IsTenantOrEmpty : Text → Type 0
IsTenantOrEmpty m = (m ≡ []) ⊎ ((skip_usage_merchant m ≡ false) × (trim_space m ≡ m))

abbrev AllTenant : Option Text → Type 0
AllTenant none = Unit
AllTenant (some m) = IsTenantOrEmpty m

named_merchant-AllTenant : (v : Option Json) → AllTenant (named_merchant v)
named_merchant-AllTenant none = tt
named_merchant-AllTenant (some (str s)) =
    elim (Bool-cases (is_empty (trim_space s) || skip_usage_merchant (trim_space s))) [
      | inl skipped ↦ rw skipped tt
      | inr named ↦ rw named (inr (ground arith, trim_space_idem s))
    ]
named_merchant-AllTenant (some null) = tt
named_merchant-AllTenant (some (bool b)) = tt
named_merchant-AllTenant (some (num n)) = tt
named_merchant-AllTenant (some (arr xs)) = tt
named_merchant-AllTenant (some (obj fs)) = tt

first_named-AllTenant :
    (o o' : Option Text) → AllTenant o → AllTenant o' → AllTenant (first_named o o')
first_named-AllTenant none o' h h' = h'
first_named-AllTenant (some m) o' h h' = h

own_merchant-AllTenant : (fs : Fields) → AllTenant (own_merchant fs)
unfolding own_merchant
own_merchant-AllTenant fs =
    first_named-AllTenant (named_merchant (find (runes "merchant_id") fs))
      (named_merchant (find (runes "MerchantID") fs))
      (named_merchant-AllTenant (find (runes "merchant_id") fs))
      (named_merchant-AllTenant (find (runes "MerchantID") fs))

or_else-tenant :
    (o : Option Text) (other : Text)
    → AllTenant o
    → IsTenantOrEmpty other
    → IsTenantOrEmpty (or_else o other)
or_else-tenant none other h h' = h'
or_else-tenant (some m) other h h' = h

mutual
  unfolding in_meta

  in_meta_tenant : (fs : Fields) → IsTenantOrEmpty (in_meta fs)
  in_meta_tenant end = inl refl
  in_meta_tenant (field k v rest) = elim (Bool-cases (k == runes "meta")) [
    | inl e ↦ rw e (in_value_tenant v)
    | inr e ↦ rw e (in_meta_tenant rest)
  ]

  in_value_tenant : (v : Json) → IsTenantOrEmpty (in_value v)
  in_value_tenant (obj fs) =
      or_else-tenant (own_merchant fs) (in_meta fs) (own_merchant-AllTenant fs) (in_meta_tenant fs)
  in_value_tenant (arr xs) = inl refl
  in_value_tenant null = inl refl
  in_value_tenant (bool b) = inl refl
  in_value_tenant (num n) = inl refl
  in_value_tenant (str s) = inl refl

lookup_merchant_id-tenant : (fs : Fields) → IsTenantOrEmpty (lookup_merchant_id fs)
unfolding lookup_merchant_id
lookup_merchant_id-tenant fs =
    or_else-tenant (own_merchant fs) (in_meta fs) (own_merchant-AllTenant fs) (in_meta_tenant fs)

inner_merchant-tenant : (v : Option Json) → IsTenantOrEmpty (inner_merchant v)
inner_merchant-tenant none = inl refl
inner_merchant-tenant (some (obj fs)) = lookup_merchant_id-tenant fs
inner_merchant-tenant (some null) = inl refl
inner_merchant-tenant (some (bool b)) = inl refl
inner_merchant-tenant (some (num n)) = inl refl
inner_merchant-tenant (some (str s)) = inl refl
inner_merchant-tenant (some (arr xs)) = inl refl

-- The merchant that is read from the document before an operation is empty or names a tenant,
-- trimmed: never "*" or another shared merchant, however deep it stands.
pub merchant_from_before-tenant :
    (before : Option Json) → IsTenantOrEmpty (merchant_from_before before)
unfolding merchant_from_before
merchant_from_before-tenant none = inl refl
merchant_from_before-tenant (some (obj doc)) =
    elim (Bool-cases (is_empty (lookup_merchant_id doc))) [
      | inl blank ↦ rw blank (inner_merchant-tenant (find (runes "_") doc))
      | inr full ↦ rw full (lookup_merchant_id-tenant doc)
    ]
merchant_from_before-tenant (some null) = inl refl
merchant_from_before-tenant (some (bool b)) = inl refl
merchant_from_before-tenant (some (num n)) = inl refl
merchant_from_before-tenant (some (str s)) = inl refl
merchant_from_before-tenant (some (arr xs)) = inl refl

-- A row is for the merchant of the document before the operation, which then is no shared one, and
-- the operation deletes or the request names no tenant; or it is for the merchant that the request
-- names first, and that document names none, or the operation does not delete and the request names
-- a tenant.
pub operation_merchant_cases :
    (candidates : List Text) (action : Text) (before : Option Json)
    → ((operation_merchant candidates action before ≡ merchant_from_before before)
        × (skip_usage_merchant (merchant_from_before before) ≡ false)
        × ((action ≡ runes "delete") ⊎ (skip_usage_merchant (first_non_empty candidates) ≡ true)))
      ⊎ ((operation_merchant candidates action before ≡ first_non_empty candidates)
          × ((merchant_from_before before ≡ [])
              ⊎ ((action ≢ runes "delete")
                  × (skip_usage_merchant (first_non_empty candidates) ≡ false))))
unfolding operation_merchant
operation_merchant_cases candidates action before =
    elim (Bool-cases (is_empty (merchant_from_before before))) [
      | inl blank ↦ inr (ground arith, inl (ground arith))
      | inr full ↦
          elim (Bool-cases
            (skip_usage_merchant (first_non_empty candidates) || action == runes "delete")) [
              | inl takes ↦ inl (
                ground arith,
                ground (arith, merchant_from_before-tenant before),
                ground (arith, eq_iff action (runes "delete")),
              )
              | inr keeps ↦
                  inr (
                    ground arith,
                    inr (ground (arith, eq_iff action (runes "delete")), ground arith),
                  )
            ]
    ]
