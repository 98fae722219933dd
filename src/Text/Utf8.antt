-- ===== src/Text/Utf8.antt =====
-- The bytes of a string, and its runes.
pub mod Laws
use middle.Prelude.{
  ℕ, zero, suc, ◌+◌, ◌-◌, ◌*◌, ◌/◌, ◌%◌, Bool, ◌&&◌, List, [], ◌∷◌, ◌++◌, ltb, leb, eqb,
  if◌then◌else◌,
}
use middle.Text.{Text}

-- The last six bits of a rune, as a continuation byte.
abbrev rest_byte : ℕ → ℕ
rest_byte c = 0x80 + c % 64

unfoldable pub rune_bytes : ℕ → List ℕ
rune_bytes c =
    if ltb c 0x80
    then c ∷ []
    else if ltb c 0x800
    then (0xc0 + c / 64) ∷ rest_byte c ∷ []
    else if ltb c 0x10000
    then (0xe0 + c / 4096) ∷ rest_byte (c / 64) ∷ rest_byte c ∷ []
    else (0xf0 + c / 262144) ∷ rest_byte (c / 4096) ∷ rest_byte (c / 64) ∷ rest_byte c ∷ []

-- `[]byte(s)`
unfoldable pub utf8 : Text → List ℕ
unfolding rune_bytes
utf8 [] = []
utf8 (c ∷ s) = rune_bytes c ++ utf8 s

abbrev pub between : ℕ → ℕ → ℕ → Bool
between lo hi c = leb lo c && leb c hi

-- The least and the greatest second byte behind a first one.
abbrev pub second_byte : ℕ → ℕ → Bool
second_byte b c =
    between (if eqb b 0xe0 then 0xa0 else if eqb b 0xf0 then 0x90 else 0x80)
      (if eqb b 0xed then 0x9f else if eqb b 0xf4 then 0x8f else 0xbf) c

abbrev one_byte : ℕ → ℕ × ℕ
one_byte b = if ltb b 0x80 then (b, 0) else (0xfffd, 0)

abbrev two_bytes : ℕ → ℕ → ℕ × ℕ
two_bytes b c =
    if between 0xc2 0xdf b && between 0x80 0xbf c
    then ((b - 0xc0) * 64 + (c - 0x80), 1)
    else one_byte b

abbrev pub three_bytes : ℕ → ℕ → ℕ → ℕ × ℕ
three_bytes b c d =
    if between 0xe0 0xef b && second_byte b c && between 0x80 0xbf d
    then ((b - 0xe0) * 4096 + (c - 0x80) * 64 + (d - 0x80), 2)
    else two_bytes b c

-- The rune that starts with the byte `b` before the bytes `s`, and how many of these it takes;
-- U+FFFD for a byte that starts none (`utf8.DecodeRune`).
unfoldable pub first_rune : ℕ → List ℕ → ℕ × ℕ
first_rune b (c ∷ d ∷ e ∷ s) =
    if between 0xf0 0xf4 b && second_byte b c && between 0x80 0xbf d && between 0x80 0xbf e
    then ((b - 0xf0) * 262144 + (c - 0x80) * 4096 + (d - 0x80) * 64 + (e - 0x80), 3)
    else three_bytes b c d
first_rune b (c ∷ d ∷ []) = three_bytes b c d
first_rune b (c ∷ []) = two_bytes b c
first_rune b [] = one_byte b

-- `[]rune(s)`: the bytes of a rune that is decoded already are passed over.
unfoldable pub runes_from : ℕ → List ℕ → Text
unfolding first_rune
runes_from (suc skip) (b ∷ s) = runes_from skip s
runes_from zero (b ∷ s) = (first_rune b s).0 ∷ runes_from (first_rune b s).1 s
runes_from skip [] = []

abbrev pub runes_of : List ℕ → Text
runes_of s = runes_from 0 s
