-- ===== src/Redact/Clean.antt =====
-- Redacted bodies hold no sensitive value, and all else as it was.
use middle.Prelude.{true, ◌≡◌, refl, arith, Bool-cases, inl, inr, ap, if◌then◌else◌}
use mathlib.Core.Option
use mathlib.Core.Path.{ap₂}
use middle.Text.{Text}
use middle.Text.Equality.{eq_iff}
use middle.Json.{Json, null, bool, num, str, arr, obj, Items, nil, item, Fields, end, field, find}
use middle.Json.Lookup.{Deep, DeepItems, DeepFields}
use middle.Redact.{is_sensitive, masked, redact_value, redact_items, redact_fields}

-- A sensitive key holds the mask.
abbrev pub IsMasked : Text → Json → Type 0
IsMasked k v = is_sensitive k ≡ true → v ≡ masked

mutual
  unfolding redact_value

  redact_value-Deep : (v : Json) → Deep IsMasked (redact_value v)
  redact_value-Deep (obj fs) = redact_fields-Deep fs
  redact_value-Deep (arr xs) = redact_items-Deep xs
  redact_value-Deep null = tt
  redact_value-Deep (bool b) = tt
  redact_value-Deep (num n) = tt
  redact_value-Deep (str s) = tt

  redact_items-Deep : (xs : Items) → DeepItems IsMasked (redact_items xs)
  redact_items-Deep nil = tt
  redact_items-Deep (item x xs) = (redact_value-Deep x, redact_items-Deep xs)

  redact_fields-Deep : (fs : Fields) → DeepFields IsMasked (redact_fields fs)
  redact_fields-Deep end = tt
  redact_fields-Deep (field k v rest) = elim (Bool-cases (is_sensitive k)) [
    | inl h ↦ rw h ((λ e. refl), tt, redact_fields-Deep rest)
    | inr h ↦ rw h ((λ e. cc), redact_value-Deep v, redact_fields-Deep rest)
  ]

-- Redaction answers each key of an object from that key's value alone: with the mask if the key is
-- sensitive, else with the value redacted; no key comes or goes.
pub find-redact_fields :
    (key : Text) (fs : Fields)
    → find key (redact_fields fs)
      ≡ Option.map (λ v. if is_sensitive key then masked else redact_value v) (find key fs)
unfolding find redact_value
find-redact_fields key end = refl
find-redact_fields key (field k v rest) = ground (arith, eq_iff k key, find-redact_fields key rest)

mutual
  unfolding redact_value

  redact_value_fixed : (v : Json) → Deep IsMasked v → redact_value v ≡ v
  redact_value_fixed (obj fs) h = ap obj (redact_fields_fixed fs h)
  redact_value_fixed (arr xs) h = ap arr (redact_items_fixed xs h)
  redact_value_fixed null h = refl
  redact_value_fixed (bool b) h = refl
  redact_value_fixed (num n) h = refl
  redact_value_fixed (str s) h = refl

  redact_items_fixed : (xs : Items) → DeepItems IsMasked xs → redact_items xs ≡ xs
  redact_items_fixed nil h = refl
  redact_items_fixed (item x xs) h = ap₂ item (redact_value_fixed x h.0) (redact_items_fixed xs h.1)

  redact_fields_fixed : (fs : Fields) → DeepFields IsMasked fs → redact_fields fs ≡ fs
  redact_fields_fixed end h = refl
  redact_fields_fixed (field k v rest) (masks, deep, others) = elim (Bool-cases (is_sensitive k)) [
    | inl e ↦ rw (e, redact_fields_fixed rest others, masks e)
    | inr e ↦ rw (e, redact_fields_fixed rest others, redact_value_fixed v deep)
  ]

-- At every depth, also inside arrays, a sensitive key of a redacted body holds the mask, and to
-- redact the body again changes nothing.
pub redact_value-IsMasked :
    (v : Json) → Deep IsMasked (redact_value v) × (redact_value (redact_value v) ≡ redact_value v)
redact_value-IsMasked v =
    (redact_value-Deep v, redact_value_fixed (redact_value v) (redact_value-Deep v))
