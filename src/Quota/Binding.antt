-- ===== src/Quota/Binding.antt =====
-- The session, the quota and the audit log agree on the merchant of a request.
use middle.Prelude.{
  true, false, List, [], ◌∷◌, Option, ◌≡◌, ◌≢◌, ◌⊎◌, refl, ◌∙◌, ap, arith, inl, inr,
}
use middle.Text.{Text, runes, trim_space, text_runs}
use middle.Text.Trim.{trim_space_idem}
use middle.Http.{Context, get, merchant_id}
use middle.Config.{Config, Net}
use middle.User.{LoginInfo, load_from_header}
use middle.Json.{Json}
use middle.Login.{star, allow_switch, write_into_header}
use middle.Login.Isolation.{write_into_header-merchant_id}
use middle.Usage.{skip_usage_merchant}
use middle.Oplog.{first_non_empty, merchant_from_before, row_candidates, row_merchant}
use middle.Oplog.Merchants.{operation_merchant_cases}
use middle.Quota.{quota_merchant}

star_shared : skip_usage_merchant star ≡ true
unfolding skip_usage_merchant text_runs
star_shared = refl

shared_star : (m : Text) → skip_usage_merchant m ≡ false → m ≢ star
shared_star m h e = ground (arith, star_shared, ap skip_usage_merchant e)

pub first_non_empty_trimmed :
    (m : Text) (rest : List Text)
    → trim_space m ≢ []
    → first_non_empty (trim_space m ∷ rest) ≡ trim_space m
unfolding first_non_empty
first_non_empty_trimmed m rest h = ground (arith, trim_space_idem m)

module _ (net : Net) (cfg : Config) (l : LoginInfo) (c : Context)
    (denied : allow_switch net cfg l c true ≡ false) (has : trim_space l.merchant_id ≢ [])
    (own : skip_usage_merchant (trim_space l.merchant_id) ≡ false) where
  abbrev bound : Context
  bound = write_into_header net cfg l true c

  pub header-write_into_header : get bound.headers merchant_id ≡ trim_space l.merchant_id
  header-write_into_header =
      write_into_header-merchant_id net cfg l c denied has
        (shared_star (trim_space l.merchant_id) own)

  -- Behind the session of a login that has its own merchant, not a shared one, and may not switch,
  -- the quota is asked for that merchant, whatever the client's headers say.
  pub quota_merchant-write_into_header : quota_merchant bound ≡ trim_space l.merchant_id
  unfolding quota_merchant load_from_header
  quota_merchant-write_into_header =
      rw header-write_into_header (first_non_empty_trimmed l.merchant_id _ has)

  named_first :
      (body_merchant : Text)
      → first_non_empty (row_candidates bound (load_from_header bound) body_merchant)
        ≡ trim_space l.merchant_id
  unfolding load_from_header
  named_first body_merchant =
      rw header-write_into_header (first_non_empty_trimmed l.merchant_id _ has)

  -- Behind the session of a login that has its own merchant, not a shared one, and may not switch,
  -- the row of a request is for that merchant, whatever its headers and its body say; or it is the
  -- row of a deletion, for the merchant of the deleted document, which is no shared one.
  pub row_merchant-write_into_header :
      (body_merchant action : Text) (before : Option Json)
      → (row_merchant bound body_merchant action before ≡ trim_space l.merchant_id)
        ⊎ ((action ≡ runes "delete")
            × (row_merchant bound body_merchant action before ≡ merchant_from_before before)
            × (skip_usage_merchant (merchant_from_before before) ≡ false))
  unfolding row_merchant
  row_merchant-write_into_header body_merchant action before =
      let named = named_first body_merchant in
      elim (operation_merchant_cases (row_candidates bound (load_from_header bound) body_merchant)
        action before) [
          | inr (same, why) ↦ inl (same ∙ named)
          | inl (same, tenant, why) ↦ elim why [
            | inl deletes ↦ inr (deletes, same, tenant)
            | inr shared ↦ absurd (ground (arith, named, ap skip_usage_merchant named))
          ]
        ]
