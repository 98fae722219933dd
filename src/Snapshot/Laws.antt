-- ===== src/Snapshot/Laws.antt =====
-- Which collection a path gets, and what a kept document holds.
use middle.Prelude.{
  false, ◌||◌, [], ◌∷◌, ◌++◌, none, some, any, ◌≡◌, ◌≢◌, refl, ◌∙◌, arith, Bool-cases, inl, inr,
  All, if◌then◌else◌,
}
use mathlib.Core.Option
use middle.Text.{Text, is_empty, ◌==◌, trim_space, to_lower, contains}
use middle.Text.Equality.{eq_iff}
use middle.Json.{Json, null, bool, num, str, arr, obj, Fields, end, field, find}
use middle.Snapshot.{
  Pair, Registry, register, searched, first_match, collection_for, is_secret, sanitize_doc,
  sanitize_value,
}

-- Every pair has both of its parts, and its substring is in lower case and trimmed.
abbrev pub IsWellFormed : Registry → Type 0
IsWellFormed = All (λ e. (e.substr ≢ []) × (e.coll ≢ []))

All-concat :
    (r : Registry) (e : Pair)
    → IsWellFormed r
    → (e.substr ≢ []) × (e.coll ≢ [])
    → IsWellFormed (r ++ (e ∷ []))
All-concat [] e h p = (p, tt)
All-concat (x ∷ r) e (q, h) p = (q, All-concat r e h p)

-- Registration keeps a registry well formed: what is incomplete is ignored.
pub register-IsWellFormed :
    (substr coll : Text) (r : Registry) → IsWellFormed r → IsWellFormed (register substr coll r)
unfolding register
register-IsWellFormed substr coll r h =
    elim (Bool-cases (is_empty (to_lower (trim_space substr)) || is_empty (trim_space coll))) [
      | inl e ↦ rw e h
      | inr e ↦ rw e (All-concat r _ h (ground arith))
    ]

-- A path finds the collection of the first pair whose substring it contains.
first_match-concat :
    (p : Text) (r : Registry) (e : Pair)
    → first_match p (r ++ (e ∷ [])) ≡ (
        if any (λ x. contains p x.substr) r
        then first_match p r
        else if contains p e.substr
        then e.coll
        else [])
unfolding first_match
first_match-concat p [] e = refl
first_match-concat p (x ∷ r) e = ground (arith, first_match-concat p r e)

-- What was registered first stays first: a later registration changes the collection of a path
-- only if no earlier substring is in the path, and then to the new one if the path contains it.
pub collection_for-register :
    (substr coll : Text) (r : Registry) (full_path raw_path : Text)
    → to_lower (trim_space substr) ≢ []
    → trim_space coll ≢ []
    → collection_for (register substr coll r) full_path raw_path ≡ (
        if any (λ x. contains (searched full_path raw_path) x.substr) r
        then collection_for r full_path raw_path
        else if contains (searched full_path raw_path) (to_lower (trim_space substr))
        then trim_space coll
        else [])
unfolding collection_for register
collection_for-register substr coll r full_path raw_path hs hc =
    elim (Bool-cases (is_empty (to_lower (trim_space substr)) || is_empty (trim_space coll))) [
      | inl e ↦ absurd (ground arith)
      | inr e ↦ rw e (first_match-concat (searched full_path raw_path) r _)
    ]

find-kept :
    (key k : Text) (v : Json) (rest : Fields)
    → find key (if is_secret k then rest else field k v rest)
      ≡ (if is_secret k then find key rest else if k == key then some v else find key rest)
unfolding find
find-kept key k v rest = elim (Bool-cases (is_secret k)) [ inl e ↦ rw e | inr e ↦ rw e ]

sanitize_doc_step :
    (k : Text) (v : Json) (rest : Fields)
    → sanitize_doc (field k v rest)
      ≡ (if is_secret k then sanitize_doc rest else field k (sanitize_value v) (sanitize_doc rest))
unfolding sanitize_doc
sanitize_doc_step k v rest = refl

-- A kept document answers each key from that key's value alone: secret keys are gone, and all
-- others hold their value, sanitised where it is a document.
pub find-sanitize_doc :
    (key : Text) (fs : Fields)
    → find key (sanitize_doc fs)
      ≡ (if is_secret key then none else Option.map sanitize_value (find key fs))
unfolding find sanitize_doc
find-sanitize_doc key end = elim (Bool-cases (is_secret key)) [ inl e ↦ rw e | inr e ↦ rw e ]
find-sanitize_doc key (field k v rest) = rw sanitize_doc_step (
    find-kept key k (sanitize_value v) (sanitize_doc rest)
    ∙ ground (arith, eq_iff k key, find-sanitize_doc key rest))

-- No secret key at any depth of nested documents.
abbrev mutual
  pub HidesSecrets : Fields → Type 0
  HidesSecrets end = Unit
  HidesSecrets (field k v rest) = (is_secret k ≡ false) × HidesInside v × HidesSecrets rest

  pub HidesInside : Json → Type 0
  HidesInside (obj fs) = HidesSecrets fs
  HidesInside (arr xs) = Unit
  HidesInside null = Unit
  HidesInside (bool b) = Unit
  HidesInside (num n) = Unit
  HidesInside (str s) = Unit

mutual
  unfolding sanitize_doc

  sanitize_doc_hides : (fs : Fields) → HidesSecrets (sanitize_doc fs)
  sanitize_doc_hides end = tt
  sanitize_doc_hides (field k v rest) = elim (Bool-cases (is_secret k)) [
    | inl e ↦ rw e (sanitize_doc_hides rest)
    | inr e ↦ rw e (e, sanitize_value_hides v, sanitize_doc_hides rest)
  ]

  sanitize_value_hides : (v : Json) → HidesInside (sanitize_value v)
  sanitize_value_hides (obj fs) = sanitize_doc_hides fs
  sanitize_value_hides (arr xs) = tt
  sanitize_value_hides null = tt
  sanitize_value_hides (bool b) = tt
  sanitize_value_hides (num n) = tt
  sanitize_value_hides (str s) = tt

-- A kept document has no secret key, nor has any document nested in it outside of arrays.
pub sanitize_doc-HidesSecrets : (fs : Fields) → HidesSecrets (sanitize_doc fs)
sanitize_doc-HidesSecrets fs = sanitize_doc_hides fs
