-- ===== src/Text/ParseInt.antt =====
-- `strconv.ParseInt(s, 10, 64)`, which `strconv.Atoi` is too on a 64-bit machine.
use middle.Prelude.{
  ℕ, zero, suc, ◌+◌, ◌-◌, ◌*◌, ◌^◌, ◌&&◌, [], ◌∷◌, Option, none, some, leb, ltb, eqb, if◌then◌else◌,
}
use middle.Prelude.Int.{ℤ, pos, negsuc}
use middle.Text.{Text}

-- The value of digits behind digits of the value `n`; `none` for anything else.
unfoldable pub digits : ℕ → Text → Option ℕ
digits n [] = some n
digits n (d ∷ ds) =
    let rest = digits (10 * n + (d - b'0')) ds in if leb b'0' d && leb d b'9' then rest else none

abbrev pub unsigned : Text → Option ℕ
unsigned [] = none
unsigned (d ∷ ds) = digits 0 (d ∷ ds)

-- A value beyond the 64-bit range is an error.
abbrev pub positive : Option ℕ → Option ℤ
positive none = none
positive (some n) = if ltb n (2 ^ 63) then some (pos n) else none

abbrev pub negative : Option ℕ → Option ℤ
negative none = none
negative (some zero) = some (pos 0)
negative (some (suc n)) = if ltb n (2 ^ 63) then some (negsuc n) else none

unfoldable pub parse_int : Text → Option ℤ
unfolding digits
parse_int [] = none
parse_int (c ∷ s) =
    if eqb c b'-'
    then negative (unsigned s)
    else positive (if eqb c b'+' then unsigned s else unsigned (c ∷ s))
