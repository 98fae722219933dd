-- ===== src/Text/Sort.antt =====
-- `sort.Strings`: strings in the order of their bytes.
use middle.Prelude.{
  Bool, true, false, ◌&&◌, ◌||◌, List, [], ◌∷◌, ltb, eqb, ◌≡◌, refl, ap, arith, Bool-cases, inl,
  inr, if◌then◌else◌,
}
use middle.Text.{Text}

-- `<=` on strings, which `sort.Strings` sorts by. UTF-8 keeps the order of the runes.
unfoldable pub text_le : Text → Text → Bool
text_le [] t = true
text_le (a ∷ s) [] = false
text_le (a ∷ s) (b ∷ t) = let rest = text_le s t in ltb a b || (eqb a b && rest)

unfoldable pub insert : Text → List Text → List Text
insert x [] = x ∷ []
insert x (y ∷ l) = let rest = insert x l in if text_le x y then x ∷ y ∷ l else y ∷ rest

-- `sort.Strings`
unfoldable pub sort_strings : List Text → List Text
sort_strings [] = []
sort_strings (x ∷ l) = insert x (sort_strings l)

pub text_le_antisym : (s t : Text) → text_le s t ≡ true → text_le t s ≡ true → s ≡ t
unfolding text_le
text_le_antisym [] [] h h' = refl
text_le_antisym [] (b ∷ t) h h' = absurd (ground arith)
text_le_antisym (a ∷ s) [] h h' = absurd (ground arith)
text_le_antisym (a ∷ s) (b ∷ t) h h' = ground (arith, text_le_antisym s t)

pub text_le_total : (s t : Text) → text_le s t ≡ false → text_le t s ≡ true
unfolding text_le
text_le_total [] t h = absurd (ground arith)
text_le_total (a ∷ s) [] h = refl
text_le_total (a ∷ s) (b ∷ t) h = ground (arith, text_le_total s t)

pub text_le_trans : (s t u : Text) → text_le s t ≡ true → text_le t u ≡ true → text_le s u ≡ true
unfolding text_le
text_le_trans [] t u h h' = refl
text_le_trans (a ∷ s) [] u h h' = absurd (ground arith)
text_le_trans (a ∷ s) (b ∷ t) [] h h' = absurd (ground arith)
text_le_trans (a ∷ s) (b ∷ t) (c ∷ u) h h' = ground (arith, text_le_trans s t u)

insert-step :
    (x y : Text) (l : List Text)
    → insert x (y ∷ l) ≡ (if text_le x y then x ∷ y ∷ l else y ∷ insert x l)
unfolding insert
insert-step x y l = refl

pub insert-insert : (x y : Text) (l : List Text) → insert x (insert y l) ≡ insert y (insert x l)
unfolding insert
insert-insert x y [] = ground (arith, text_le_antisym x y, text_le_total x y)
insert-insert x y (z ∷ l) = elim (Bool-cases (text_le x z)) [
  | inl xz ↦ elim (Bool-cases (text_le y z)) [
    | inl yz ↦ rw (xz, yz) (ground (arith, text_le_antisym x y, text_le_total x y))
    | inr yz ↦ rw (xz, yz) (ground (arith, text_le_trans y x z))
  ]
  | inr xz ↦ elim (Bool-cases (text_le y z)) [
    | inl yz ↦ rw (xz, yz) (ground (arith, text_le_trans x y z))
    | inr yz ↦ rw (xz, yz, xz) (ap (λ k. z ∷ k) (insert-insert x y l))
  ]
]
