-- ===== src/Callback/Sorted.antt =====
-- The signed text does not depend on the order in which a loop meets the keys of a map.
use middle.Prelude.{List, [], ◌∷◌, ◌≡◌, refl, ◌∙◌, ap, Bool-cases, inl, inr}
use middle.Text.{Text}
use middle.Text.Sort.{insert, sort_strings, insert-insert}
use middle.Callback.{is_signed, signed_keys, joined, canonical_sorted_kv}

-- Lists with the same keys in another order.
pub data Shuffled : List Text → List Text → Type 0 where
  empty : Shuffled [] []
  keep : (x : Text) {xs ys : List Text} → Shuffled xs ys → Shuffled (x ∷ xs) (x ∷ ys)
  swap : (x y : Text) (xs : List Text) → Shuffled (x ∷ y ∷ xs) (y ∷ x ∷ xs)
  then_shuffled : {xs ys zs : List Text} → Shuffled xs ys → Shuffled ys zs → Shuffled xs zs

signed_sorted-Shuffled :
    (skip_keys : List Text) (value : Text → Text) {xs ys : List Text}
    → Shuffled xs ys
    → sort_strings (signed_keys skip_keys value xs) ≡ sort_strings (signed_keys skip_keys value ys)
unfolding signed_keys sort_strings
signed_sorted-Shuffled skip_keys value empty = refl
signed_sorted-Shuffled skip_keys value (keep x s) =
    elim (Bool-cases (is_signed skip_keys value x)) [
      | inl e ↦ rw e (ap (λ l. insert x l) (signed_sorted-Shuffled skip_keys value s))
      | inr e ↦ rw e (signed_sorted-Shuffled skip_keys value s)
    ]
signed_sorted-Shuffled skip_keys value (swap x y xs) =
    elim (Bool-cases (is_signed skip_keys value x)) [
      | inl ex ↦ elim (Bool-cases (is_signed skip_keys value y)) [
        | inl ey ↦ rw (ex, ey) (insert-insert x y (sort_strings (signed_keys skip_keys value xs)))
        | inr ey ↦ rw (ex, ey) refl
      ]
      | inr ex ↦ rw ex refl
    ]
signed_sorted-Shuffled skip_keys value (then_shuffled s t) =
    signed_sorted-Shuffled skip_keys value s ∙ signed_sorted-Shuffled skip_keys value t

-- The signed text is the same for every order of the keys, so a signature does not depend on how Go
-- runs over a map.
pub canonical_sorted_kv-Shuffled :
    (value : Text → Text) (skip_keys xs ys : List Text)
    → Shuffled xs ys
    → canonical_sorted_kv (record { keys = xs; value = value }) skip_keys
      ≡ canonical_sorted_kv (record { keys = ys; value = value }) skip_keys
unfolding canonical_sorted_kv
canonical_sorted_kv-Shuffled value skip_keys xs ys s =
    ap (λ l. joined value l) (signed_sorted-Shuffled skip_keys value s)
