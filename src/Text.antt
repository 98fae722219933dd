-- ===== src/Text.antt =====
-- Go strings and the functions of Go's package strings that the program calls. A string is the
-- list of its runes (it is valid UTF-8 everywhere in this program). `unicode.IsSpace` is written
-- out in full. Of `unicode.ToLower` and `ToUpper` every rune whose image is ASCII is written out
-- (A-Z, and the two or three letters beyond ASCII that map into it); the program compares
-- converted text with ASCII words only, so what the other letters map to is never looked at.
pub mod Equality
pub mod Trim
pub mod Case
pub mod Sort
pub mod SortBy
pub mod Utf8
pub mod ParseInt
pub mod Float
use Prim.Native.Char.{code}
use Prim.Native.String.{String}
use middle.Prelude.{
  ℕ, zero, suc, ◌+◌, ◌-◌, Bool, true, false, ◌&&◌, ◌||◌, not, List, [], ◌∷◌, ◌++◌, Option, none,
  some, map, leb, eqb, length, if◌then◌else◌,
}

abbrev pub Text : Type 0
Text = List ℕ

-- The runes of a literal.
abbrev pub runes : String → Text
runes String.[] = []
runes (String.◌∷◌ c s) = code c ∷ runes s

-- `s == ""`
abbrev pub is_empty {ℓ} : {A : Type ℓ} → List A → Bool
is_empty [] = true
is_empty (_ ∷ _) = false

infix 50 ◌==◌
unfoldable pub ◌==◌ : Text → Text → Bool
[] == [] = true
(a ∷ s) == (b ∷ t) = eqb a b && s == t
_ == _ = false

abbrev within : ℕ → ℕ → ℕ → Bool
within lo hi c = leb lo c && leb c hi

-- `unicode.IsSpace`
unfoldable pub is_space : ℕ → Bool
is_space c =
    within 9 13 c
    || eqb c b' '
    || eqb c 0x85
    || eqb c 0xa0
    || eqb c 0x1680
    || within 0x2000 0x200a c
    || within 0x2028 0x2029 c
    || eqb c 0x202f
    || eqb c 0x205f
    || eqb c 0x3000

unfoldable pub trim_left : Text → Text
trim_left [] = []
trim_left (c ∷ s) = if is_space c then trim_left s else c ∷ s

unfoldable pub trim_right : Text → Text
trim_right [] = []
trim_right (c ∷ s) = let rest = trim_right s in if is_empty rest && is_space c then [] else c ∷ rest

-- `strings.TrimSpace`
unfoldable pub trim_space : Text → Text
unfolding trim_left trim_right is_space
trim_space s = trim_right (trim_left s)

unfoldable pub lower_rune : ℕ → ℕ
lower_rune c =
    if within b'A' b'Z' c
    then c + 32
    else if eqb c 0x130
    then b'i'
    else if eqb c 0x212a
    then b'k'
    else c

unfoldable pub upper_rune : ℕ → ℕ
upper_rune c =
    if within b'a' b'z' c
    then c - 32
    else if eqb c 0x131
    then b'I'
    else if eqb c 0x17f
    then b'S'
    else c

-- `strings.ToLower` and `strings.ToUpper`
unfoldable pub to_lower : Text → Text
unfolding lower_rune
to_lower = map lower_rune

unfoldable pub to_upper : Text → Text
unfolding upper_rune
to_upper = map upper_rune

-- `strings.EqualFold`, for a second argument of ASCII letters: both sides are lowered, and the long
-- s folds to s.
fold_rune : ℕ → ℕ
unfolding lower_rune
fold_rune c = if eqb c 0x17f then b's' else lower_rune c

unfoldable pub equal_fold : Text → Text → Bool
unfolding fold_rune ◌==◌
equal_fold s t = map fold_rune s == map fold_rune t

-- `strings.HasPrefix(s, p)`
unfoldable pub has_prefix : Text → Text → Bool
has_prefix s [] = true
has_prefix [] (_ ∷ _) = false
has_prefix (a ∷ s) (b ∷ p) = eqb a b && has_prefix s p

-- `strings.HasSuffix(s, p)`
unfoldable pub has_suffix : Text → Text → Bool
unfolding ◌==◌
has_suffix [] p = is_empty p
has_suffix (c ∷ s) p = (c ∷ s) == p || has_suffix s p

-- `strings.Contains(s, p)`
unfoldable pub contains : Text → Text → Bool
unfolding has_prefix
contains [] p = is_empty p
contains (c ∷ s) p = has_prefix (c ∷ s) p || contains s p

-- The parts of `s` around its first `c`, if it has one.
unfoldable pub cut : ℕ → Text → Option (Text × Text)
cut c [] = none
cut c (a ∷ s) =
    let later : Option (Text × Text) = elim (cut c s) [
      | none ↦ none
      | some (before, after) ↦ some (a ∷ before, after)
    ] in
    if eqb a c then some ([], s) else later

-- The parts of `s` around its last `c`, if it has one.
unfoldable pub cut_last : ℕ → Text → Option (Text × Text)
cut_last c [] = none
cut_last c (a ∷ s) = elim (cut_last c s) [
  | none ↦ if eqb a c then some ([], s) else none
  | some (before, after) ↦ some (a ∷ before, after)
]

-- `strings.IndexByte(s, c) >= 0`, for an ASCII `c`
unfoldable pub has_rune : ℕ → Text → Bool
has_rune c [] = false
has_rune c (a ∷ s) = eqb a c || has_rune c s

-- The text before the first `c`, or all of it: `strings.Split(s, c)[0]`.
unfoldable pub before_first : ℕ → Text → Text
before_first c [] = []
before_first c (a ∷ s) = if eqb a c then [] else a ∷ before_first c s

abbrev push_front : ℕ → List Text → List Text
push_front a [] = (a ∷ []) ∷ []
push_front a (part ∷ parts) = (a ∷ part) ∷ parts

-- `strings.Split(s, c)` for a separator of one rune
unfoldable pub split : ℕ → Text → List Text
split c [] = [] ∷ []
split c (a ∷ s) = let rest = split c s in if eqb a c then [] ∷ rest else push_front a rest

-- `strings.ReplaceAll(s, p, "")`, for a `p` that is not empty; the runes of an occurrence are passed
-- over.
unfoldable pub without_from : Text → ℕ → Text → Text
unfolding has_prefix
without_from p skip [] = []
without_from p (suc skip) (c ∷ s) = without_from p skip s
without_from p zero (c ∷ s) =
    let hit = has_prefix (c ∷ s) p in
    let rest = without_from p (if hit then length p - 1 else 0) s in if hit then rest else c ∷ rest

abbrev pub without : Text → Text → Text
without p s = without_from p 0 s

-- Named on the `unfolding` line of a test, it opens every function above.
unfoldable pub text_runs : Unit {0}
unfolding trim_space to_lower to_upper equal_fold has_prefix has_suffix contains cut cut_last
    has_rune before_first split without_from ◌==◌
text_runs = tt
