-- ===== src/Text/Case.antt =====
-- Laws of `strings.ToLower` and `strings.ToUpper`.
use middle.Prelude.{[], ◌∷◌, ◌≡◌, refl, ℕ, arith}
use middle.Text.{Text, lower_rune, upper_rune, to_lower, to_upper}

lower_rune_idem : (c : ℕ) → lower_rune (lower_rune c) ≡ lower_rune c
unfolding lower_rune
lower_rune_idem c = ground arith

pub to_lower_idem : (s : Text) → to_lower (to_lower s) ≡ to_lower s
unfolding to_lower
to_lower_idem [] = refl
to_lower_idem (c ∷ s) = cc (lower_rune_idem c, to_lower_idem s)

upper_rune_idem : (c : ℕ) → upper_rune (upper_rune c) ≡ upper_rune c
unfolding upper_rune
upper_rune_idem c = ground arith

pub to_upper_idem : (s : Text) → to_upper (to_upper s) ≡ to_upper s
unfolding to_upper
to_upper_idem [] = refl
to_upper_idem (c ∷ s) = cc (upper_rune_idem c, to_upper_idem s)
