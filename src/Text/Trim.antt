-- ===== src/Text/Trim.antt =====
-- Laws of `strings.TrimSpace`.
use middle.Prelude.{false, [], ◌∷◌, ◌≡◌, refl, ap, ◌∙◌, arith}
use middle.Text.{Text, is_space, trim_left, trim_right, trim_space}

trim_right_idem : (s : Text) → trim_right (trim_right s) ≡ trim_right s
unfolding trim_right
trim_right_idem [] = refl
trim_right_idem (c ∷ s) = ground (arith, trim_right_idem s)

-- The text is empty or starts with no space.
abbrev StartsSolid : Text → Type 0
StartsSolid [] = Unit
StartsSolid (c ∷ s) = is_space c ≡ false

trim_left-StartsSolid : (s : Text) → StartsSolid (trim_left s)
unfolding trim_left
trim_left-StartsSolid [] = tt
trim_left-StartsSolid (c ∷ s) = ground (arith, trim_left-StartsSolid s)

trim_left_of_StartsSolid : (s : Text) → StartsSolid s → trim_left s ≡ s
unfolding trim_left
trim_left_of_StartsSolid [] h = refl
trim_left_of_StartsSolid (c ∷ s) h = rw h

trim_right-StartsSolid : (s : Text) → StartsSolid s → StartsSolid (trim_right s)
unfolding trim_right
trim_right-StartsSolid [] h = tt
trim_right-StartsSolid (c ∷ s) h = ground arith

pub trim_space_idem : (s : Text) → trim_space (trim_space s) ≡ trim_space s
unfolding trim_space
trim_space_idem s =
    let solid = trim_right-StartsSolid (trim_left s) (trim_left-StartsSolid s) in
    ap trim_right (trim_left_of_StartsSolid (trim_right (trim_left s)) solid)
    ∙ trim_right_idem (trim_left s)

pub trim_space-nil : trim_space [] ≡ []
unfolding trim_space
trim_space-nil = refl
