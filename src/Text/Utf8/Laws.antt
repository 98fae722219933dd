-- ===== src/Text/Utf8/Laws.antt =====
-- A string is read back from its bytes.
use middle.Prelude.{
  ℕ, ◌+◌, ◌-◌, ◌*◌, ◌/◌, ◌%◌, ◌<◌, ◌≤◌, Bool, true, false, ◌&&◌, List, [], ◌∷◌, ◌++◌, ltb, ◌≡◌, ◌⊎◌,
  refl, ap, ◌∙◌, All, arith, Bool-cases, inl, inr,
}
use middle.Text.{Text}
use middle.Text.Utf8.{
  between, second_byte, three_bytes, rune_bytes, utf8, first_rune, runes_from, runes_of,
}

first_rune_one : (b : ℕ) (s : List ℕ) → b < 0x80 → first_rune b s ≡ (b, 0)
unfolding first_rune
first_rune_one b [] h = ground (arith, h)
first_rune_one b (c ∷ []) h = ground (arith, h)
first_rune_one b (c ∷ d ∷ []) h = ground (arith, h)
first_rune_one b (c ∷ d ∷ e ∷ s) h = ground (arith, h)

first_rune_two :
    (c : ℕ) (s : List ℕ)
    → 0x80 ≤ c
    → c < 0x800
    → first_rune (0xc0 + c / 64) ((0x80 + c % 64) ∷ s) ≡ (c, 1)
unfolding first_rune
first_rune_two c [] h h' = ground (arith, h, h')
first_rune_two c (d ∷ []) h h' = ground (arith, h, h')
first_rune_two c (d ∷ e ∷ s) h h' = ground (arith, h, h')

-- A rune is no surrogate and below 0x110000.
abbrev pub IsRune : ℕ → Type 0
IsRune c = (c < 0xd800) ⊎ ((0xe000 ≤ c) × (c < 0x110000))

second_of_three :
    (c : ℕ)
    → 0x800 ≤ c
    → c < 0x10000
    → IsRune c
    → second_byte (0xe0 + c / 4096) (0x80 + (c / 64) % 64) ≡ true
second_of_three c h h' r = ground (arith, h, h', r)

value_of_three :
    (c : ℕ)
    → (0xe0 + c / 4096 - 0xe0) * 4096 + (0x80 + (c / 64) % 64 - 0x80) * 64 + (0x80 + c % 64 - 0x80)
      ≡ c
value_of_three c = omega arith

continuation : (c : ℕ) → between 0x80 0xbf (0x80 + c % 64) ≡ true
continuation c = ground arith

first_of_three : (c : ℕ) → c < 0x10000 → between 0xe0 0xef (0xe0 + c / 4096) ≡ true
first_of_three c h = ground (arith, h)

no_four : (c : ℕ) → c < 0x10000 → between 0xf0 0xf4 (0xe0 + c / 4096) ≡ false
no_four c h = ground (arith, h)

three_bytes_lem :
    (c : ℕ)
    → 0x800 ≤ c
    → c < 0x10000
    → IsRune c
    → three_bytes (0xe0 + c / 4096) (0x80 + (c / 64) % 64) (0x80 + c % 64) ≡ (c, 2)
three_bytes_lem c h h' r =
    rw (first_of_three c h', second_of_three c h h' r, continuation c)
      (ap (λ n. (n, 2)) (value_of_three c))

second_of_four :
    (c : ℕ)
    → 0x10000 ≤ c
    → c < 0x110000
    → second_byte (0xf0 + c / 262144) (0x80 + (c / 4096) % 64) ≡ true
second_of_four c h h' = ground (arith, h, h')

value_of_four :
    (c : ℕ)
    → (0xf0 + c / 262144 - 0xf0) * 262144
        + (0x80 + (c / 4096) % 64 - 0x80) * 4096
        + (0x80 + (c / 64) % 64 - 0x80) * 64
        + (0x80 + c % 64 - 0x80)
      ≡ c
value_of_four c = omega arith

first_rune_three :
    (c : ℕ) (s : List ℕ)
    → 0x800 ≤ c
    → c < 0x10000
    → IsRune c
    → first_rune (0xe0 + c / 4096) ((0x80 + (c / 64) % 64) ∷ (0x80 + c % 64) ∷ s) ≡ (c, 2)
unfolding first_rune
first_rune_three c [] h h' r = three_bytes_lem c h h' r
first_rune_three c (e ∷ s) h h' r = rw (no_four c h') (three_bytes_lem c h h' r)

first_of_four : (c : ℕ) → 0x10000 ≤ c → c < 0x110000 → between 0xf0 0xf4 (0xf0 + c / 262144) ≡ true
first_of_four c h h' = ground (arith, h, h')

first_rune_four :
    (c : ℕ) (s : List ℕ)
    → 0x10000 ≤ c
    → c < 0x110000
    → first_rune
        (0xf0 + c / 262144)
        ((0x80 + (c / 4096) % 64) ∷ (0x80 + (c / 64) % 64) ∷ (0x80 + c % 64) ∷ s)
      ≡ (c, 3)
unfolding first_rune
first_rune_four c s h h' =
    rw (first_of_four c h h', second_of_four c h h', continuation (c / 64), continuation c)
      (ap (λ n. (n, 3)) (value_of_four c))

runes_from-rune_bytes :
    (c : ℕ) (s : List ℕ) → IsRune c → runes_from 0 (rune_bytes c ++ s) ≡ c ∷ runes_from 0 s
unfolding rune_bytes runes_from
runes_from-rune_bytes c s r = elim (Bool-cases (ltb c 0x80)) [
  | inl one ↦ rw (one, first_rune_one c s (ground (arith, one))) refl
  | inr a ↦ elim (Bool-cases (ltb c 0x800)) [
    | inl two ↦ rw (a, two, first_rune_two c s (ground (arith, a)) (ground (arith, two))) refl
    | inr b ↦ elim (Bool-cases (ltb c 0x10000)) [
      | inl three ↦
          rw (a, b, three, first_rune_three c s (ground (arith, b)) (ground (arith, three)) r) refl
      | inr four ↦
          rw (a, b, four, first_rune_four c s (ground (arith, four)) (ground (arith, four, r))) refl
    ]
  ]
]

-- The runes of the bytes of a string are the string.
pub runes_of-utf8 : (s : Text) → All IsRune s → runes_of (utf8 s) ≡ s
unfolding utf8 runes_from
runes_of-utf8 [] h = refl
runes_of-utf8 (c ∷ s) h =
    runes_from-rune_bytes c (utf8 s) h.0 ∙ ap (λ l. c ∷ l) (runes_of-utf8 s h.1)

-- A text of low runes.
abbrev pub is_low : Text → Bool
is_low [] = true
is_low (c ∷ s) = ltb c 0xd800 && is_low s

pub is_low-IsRune : (s : Text) → is_low s ≡ true → All IsRune s
is_low-IsRune [] h = tt
is_low-IsRune (c ∷ s) h = elim (Bool-cases (ltb c 0xd800)) [
  | inl low ↦ (inl (ground (arith, low)), is_low-IsRune s (ground (arith, h, low)))
  | inr high ↦ absurd (ground (arith, h, high))
]
