-- ===== src/Text/SortBy.antt =====
-- `sort.Slice` of values by a text.
use middle.Prelude.{
  suc, true, List, [], ◌∷◌, ◌≡◌, ◌⊎◌, ◌↔◌, arith, refl, Bool-cases, inl, inr, In, All, length,
  if◌then◌else◌,
}
use middle.Text.{Text}
use middle.Text.Sort.{text_le, text_le_total, text_le_trans}

module _ {A : Type 0} (key : A → Text) where
  -- `sort.Slice` by a key, which keeps the order of equal ones.
  unfoldable pub insert_by : A → List A → List A
  insert_by c [] = c ∷ []
  insert_by c (d ∷ l) =
      let rest = insert_by c l in if text_le (key c) (key d) then c ∷ d ∷ l else d ∷ rest

  unfoldable pub sort_by : List A → List A
  unfolding insert_by
  sort_by [] = []
  sort_by (c ∷ l) = insert_by c (sort_by l)

  -- Each key is at most every later one.
  abbrev pub Ascending : List A → Type 0
  Ascending [] = Unit
  Ascending (c ∷ l) = All (λ d. text_le (key c) (key d) ≡ true) l × Ascending l

  All-trans :
      (s t : Text) (l : List A)
      → text_le s t ≡ true
      → All (λ d. text_le t (key d) ≡ true) l
      → All (λ d. text_le s (key d) ≡ true) l
  All-trans s t [] e h = tt
  All-trans s t (d ∷ l) e h = (text_le_trans s t (key d) e h.0, All-trans s t l e h.1)

  All-insert_by :
      (s : Text) (c : A) (l : List A)
      → text_le s (key c) ≡ true
      → All (λ d. text_le s (key d) ≡ true) l
      → All (λ d. text_le s (key d) ≡ true) (insert_by c l)
  unfolding insert_by
  All-insert_by s c [] e h = (e, tt)
  All-insert_by s c (d ∷ l) e h = elim (Bool-cases (text_le (key c) (key d))) [
    | inl le ↦ rw le (e, h)
    | inr gt ↦ rw gt (h.0, All-insert_by s c l e h.1)
  ]

  insert_by-Ascending : (c : A) (l : List A) → Ascending l → Ascending (insert_by c l)
  unfolding insert_by
  insert_by-Ascending c [] h = (tt, tt)
  insert_by-Ascending c (d ∷ l) h = elim (Bool-cases (text_le (key c) (key d))) [
    | inl le ↦ rw le ((le, All-trans (key c) (key d) l le h.0), h)
    | inr gt ↦ rw gt (
      All-insert_by (key d) c l (text_le_total (key c) (key d) gt) h.0,
      insert_by-Ascending c l h.1,
    )
  ]

  pub sort_by-Ascending : (l : List A) → Ascending (sort_by l)
  unfolding sort_by
  sort_by-Ascending [] = tt
  sort_by-Ascending (c ∷ l) = insert_by-Ascending c (sort_by l) (sort_by-Ascending l)

  length-insert_by : (c : A) (l : List A) → length (insert_by c l) ≡ suc (length l)
  unfolding insert_by
  length-insert_by c [] = refl
  length-insert_by c (d ∷ l) = ground (arith, length-insert_by c l)

  pub length-sort_by : (l : List A) → length (sort_by l) ≡ length l
  unfolding sort_by
  length-sort_by [] = refl
  length-sort_by (c ∷ l) = omega (arith, length-insert_by c (sort_by l), length-sort_by l)

  In-insert_by : (e c : A) (l : List A) → In e (insert_by c l) ↔ ((e ≡ c) ⊎ In e l)
  unfolding insert_by
  In-insert_by e c [] = ground arith
  In-insert_by e c (d ∷ l) = ground (arith, In-insert_by e c l)

  pub In-sort_by : (e : A) (l : List A) → In e (sort_by l) ↔ In e l
  unfolding sort_by
  In-sort_by e [] = ground arith
  In-sort_by e (c ∷ l) = ground (arith, In-insert_by e c (sort_by l), In-sort_by e l)
