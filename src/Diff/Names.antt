-- ===== src/Diff/Names.antt =====
-- The keys that a comparison goes through are those of the two maps.
use middle.Prelude.{true, List, [], ◌∷◌, none, ◌≡◌, refl, arith, ◌⊎◌, inl, inr, Bool-cases, any, In}
use middle.Text.{Text, ◌==◌}
use middle.Text.Equality.{eq_iff}
use middle.Text.Sort.{insert, sort_strings}
use middle.Json.{Json, null, bool, num, str, arr, obj, Fields, end, field, find}
use middle.AuditValue.{or_null, at}
use middle.Diff.{add_key, add_keys, fields_of, names}

In-insert : (k x : Text) (l : List Text) → ((k ≡ x) ⊎ In k l) → In k (insert x l)
unfolding insert
In-insert k x [] h = h
In-insert k x (y ∷ l) h = ground (arith, In-insert k x l)

In-sort_strings : (k : Text) (l : List Text) → In k l → In k (sort_strings l)
unfolding sort_strings
In-sort_strings k [] h = absurd h
In-sort_strings k (x ∷ l) (inl e) = In-insert k x (sort_strings l) (inl e)
In-sort_strings k (x ∷ l) (inr h) = In-insert k x (sort_strings l) (inr (In-sort_strings k l h))

any-In : (k : Text) (keys : List Text) → any (λ k'. k' == k) keys ≡ true → In k keys
any-In k [] h = absurd (ground arith)
any-In k (x ∷ keys) h = ground (arith, eq_iff x k, any-In k keys)

In-add_key_same : (k : Text) (keys : List Text) → In k (add_key k keys)
In-add_key_same k keys = ground (arith, any-In k keys)

In-add_keys : (k : Text) (fs : Fields) (keys : List Text) → In k keys → In k (add_keys fs keys)
unfolding add_keys
In-add_keys k end keys h = h
In-add_keys k (field k' v rest) keys h = In-add_keys k rest (add_key k' keys) (ground (arith, h))

-- A key that a map has is among the collected ones.
find-add_keys :
    (k : Text) (fs : Fields) (keys : List Text) → (find k fs ≡ none) ⊎ In k (add_keys fs keys)
unfolding find add_keys
find-add_keys k end keys = inl refl
find-add_keys k (field k' v rest) keys = elim (Bool-cases (k' == k)) [
  | inl e ↦
      inr (In-add_keys k rest (add_key k' keys) (rw ((eq_iff k' k).0 e) (In-add_key_same k keys)))
  | inr e ↦ rw e (find-add_keys k rest (add_key k' keys))
]

at-fields_of : (k : Text) (v : Json) → at k v ≡ or_null (find k (fields_of v))
unfolding find
at-fields_of k (obj fs) = refl
at-fields_of k null = refl
at-fields_of k (bool b) = refl
at-fields_of k (num n) = refl
at-fields_of k (str s) = refl
at-fields_of k (arr xs) = refl

-- A key that is not gone through stands in neither value.
pub names-at : (k : Text) (b a : Json) → In k (names b a) ⊎ ((at k b ≡ null) × (at k a ≡ null))
names-at k b a =
    let olds = add_keys (fields_of b) [] in
    elim (find-add_keys k (fields_of a) olds) [
      | inr h ↦ inl (In-sort_strings k _ h)
      | inl n ↦ elim (find-add_keys k (fields_of b) []) [
        | inr h ↦ inl (In-sort_strings k _ (In-add_keys k (fields_of a) olds h))
        | inl m ↦ inr (rw (at-fields_of k b, m) refl, rw (at-fields_of k a, n) refl)
      ]
    ]
