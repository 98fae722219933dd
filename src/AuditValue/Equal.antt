-- ===== src/AuditValue/Equal.antt =====
-- Equal maps hold equal values under every key.
use middle.Prelude.{
  Bool, true, false, ◌&&◌, Option, none, some, ◌≡◌, refl, sym, ◌⊎◌, arith, inl, inr,
}
use middle.Text.{Text}
use middle.Text.Equality.{eq_iff}
use middle.Json.{Json, null, bool, num, str, arr, obj, Fields, end, field, find}
use middle.AuditValue.{or_null, at, holds, has_keys, equal_audit, equal_fields}

and_true : (a b : Bool) → a && b ≡ true → (a ≡ true) × (b ≡ true)
and_true true true h = (refl, refl)
and_true true false h = absurd (ground arith)
and_true false b h = absurd (ground arith)

find-field_cases :
    (k k' : Text) (v v' : Json) (rest : Fields)
    → find k (field k' v' rest) ≡ some v
    → ((k' ≡ k) × (v' ≡ v)) ⊎ (find k rest ≡ some v)
unfolding find
find-field_cases k k' v v' rest e = ground (arith, eq_iff k' k)

-- A key of the first map is in the second, with an equal value.
equal_fields-find :
    (k : Text) (fs gs : Fields) (v : Json)
    → equal_fields fs gs ≡ true
    → find k fs ≡ some v
    → holds (λ w. equal_audit v w) (find k gs) ≡ true
unfolding find equal_audit
equal_fields-find k end gs v h e = absurd (ground arith)
equal_fields-find k (field k' v' rest) gs v h e =
    let (first, others) =
      and_true (holds (λ w. equal_audit v' w) (find k' gs)) (equal_fields rest gs) h in
    elim (find-field_cases k k' v v' rest e) [
      | inl (same_key, same) ↦ rw (sym same_key, sym same) first
      | inr later ↦ equal_fields-find k rest gs v others later
    ]

-- A key of the second map is in the first.
has_keys-find :
    (k : Text) (gs fs : Fields) (w : Json)
    → has_keys gs fs ≡ true
    → find k gs ≡ some w
    → holds (λ v. true) (find k fs) ≡ true
unfolding find has_keys
has_keys-find k end fs w h e = absurd (ground arith)
has_keys-find k (field k' w' rest) fs w h e =
    let (first, others) = and_true (holds (λ v. true) (find k' fs)) (has_keys rest fs) h in
    elim (find-field_cases k k' w w' rest e) [
      | inl (same_key, _) ↦ rw (sym same_key) first
      | inr later ↦ has_keys-find k rest fs w others later
    ]

equal_at :
    (f g : Option Json)
    → ((v : Json) → f ≡ some v → holds (λ w. equal_audit v w) g ≡ true)
    → ((w : Json) → g ≡ some w → holds (λ v. true) f ≡ true)
    → equal_audit (or_null f) (or_null g) ≡ true
unfolding equal_audit
equal_at none none h h' = refl
equal_at none (some w) h h' = absurd (ground (arith, h' w refl))
equal_at (some v) none h h' = absurd (ground (arith, h v refl))
equal_at (some v) (some w) h h' = h v refl

-- Equal values hold equal values under each key, where a missing one counts as nil.
pub equal_audit-at :
    (k : Text) (b a : Json) → equal_audit b a ≡ true → equal_audit (at k b) (at k a) ≡ true
unfolding equal_audit
equal_audit-at k (obj fs) (obj gs) h =
    let (there, back) = and_true (equal_fields fs gs) (has_keys gs fs) h in
    equal_at (find k fs) (find k gs) (λ v e. equal_fields-find k fs gs v there e)
      (λ w e. has_keys-find k gs fs w back e)
equal_audit-at k null null h = refl
equal_audit-at k (bool b) (bool c) h = refl
equal_audit-at k (num m) (num n) h = refl
equal_audit-at k (str s) (str t) h = refl
equal_audit-at k (arr xs) (arr ys) h = refl
equal_audit-at k _ _ h = absurd (ground arith)
