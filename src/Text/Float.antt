-- ===== src/Text/Float.antt =====
-- How fmt prints a float64, given as its shortest decimal without an exponent: "%v" is "%g", which
-- turns to an exponent below -4 and from 6 digits behind the first on if the digits are the shortest.
mod Tests
use middle.Prelude.{
  ℕ, zero, suc, ◌+◌, ◌-◌, Bool, true, false, List, [], ◌∷◌, ◌++◌, eqb, leb, ltb, length,
  if◌then◌else◌,
}
use Prim.Native.Nat.{◌/◌, ◌%◌}
use middle.Text.{Text, runes, is_empty}

-- The digits before and behind the point.
unfoldable pub before_point : Text → Text
before_point [] = []
before_point (c ∷ s) = let rest = before_point s in if eqb c b'.' then [] else c ∷ rest

unfoldable pub after_point : Text → Text
after_point [] = []
after_point (c ∷ s) = let rest = after_point s in if eqb c b'.' then s else rest

unfoldable pub leading_zeros : Text → ℕ
leading_zeros [] = 0
leading_zeros (c ∷ s) = let rest = leading_zeros s in if eqb c b'0' then suc rest else 0

unfoldable pub without_leading_zeros : Text → Text
without_leading_zeros [] = []
without_leading_zeros (c ∷ s) =
    let rest = without_leading_zeros s in if eqb c b'0' then rest else c ∷ s

unfoldable pub without_trailing_zeros : Text → Text
without_trailing_zeros [] = []
without_trailing_zeros (c ∷ s) =
    let rest = without_trailing_zeros s in
    if is_empty rest then (if eqb c b'0' then [] else c ∷ []) else c ∷ rest

-- An exponent of a float64 has at most three digits, and is printed with at least two.
abbrev pub exponent_text : ℕ → Text
exponent_text e =
    let low = (b'0' + (e / 10) % 10) ∷ (b'0' + e % 10) ∷ [] in
    if ltb e 100 then low else (b'0' + e / 100) ∷ low

abbrev pub scientific : Text → Text → ℕ → Text
scientific [] sign e = []
scientific (d ∷ ds) sign e =
    d ∷ (if is_empty ds then [] else runes "." ++ ds) ++ (runes "e" ++ (sign ++ exponent_text e))

-- A number below one, by its zeros behind the point, and any other.
abbrev pub small_text : Text → Text → Text
small_text s digits =
    if leb 4 (leading_zeros digits)
    then scientific (without_leading_zeros digits) (runes "-") (leading_zeros digits + 1)
    else s

abbrev pub large_text : Text → Text → Text → Text
large_text s before after =
    if ltb 6 (length before)
    then scientific (without_trailing_zeros (before ++ after)) (runes "+") (length before - 1)
    else s

unfoldable pub magnitude_text : Text → Text
magnitude_text s =
    if eqb (leading_zeros (before_point s)) (length (before_point s))
    then small_text s (after_point s)
    else large_text s (before_point s) (after_point s)

unfoldable pub float_text : Text → Text
float_text [] = []
float_text (c ∷ s) = if eqb c b'-' then c ∷ magnitude_text s else magnitude_text (c ∷ s)
