-- ===== src/Text/Equality.antt =====
-- `==` on strings decides equality.
use middle.Prelude.{true, false, List, [], ◌∷◌, ◌≡◌, ◌≢◌, ◌↔◌, refl, arith}
use middle.Text.{Text, is_empty, ◌==◌}

pub eq_iff : (s t : Text) → ((s == t) ≡ true) ↔ (s ≡ t)
unfolding ◌==◌
eq_iff (a ∷ s) (b ∷ t) = ground (arith, eq_iff s t)
eq_iff _ _ = ground arith

pub eq_refl : (s : Text) → (s == s) ≡ true
eq_refl s = (eq_iff s s).1 refl

pub eq_of_ne : (s t : Text) → s ≢ t → (s == t) ≡ false
eq_of_ne s t h = ground (arith, eq_iff s t)

pub is_empty_of_ne {ℓ} : {A : Type ℓ} (xs : List A) → xs ≢ [] → is_empty xs ≡ false
is_empty_of_ne [] h = absurd (h refl)
is_empty_of_ne (x ∷ xs) h = refl
