-- ===== src/BodyFields/Lookup.antt =====
-- What a lookup over the maps of a body finds.
use middle.Prelude.{
  true, ◌&&◌, not, any, List, [], ◌∷◌, ◌≡◌, ◌≢◌, ◌⊎◌, refl, arith, Bool-cases, inl, inr,
}
use middle.Text.{Text, is_empty, equal_fold}
use middle.Json.{Json, Fields, end, field}
use middle.BodyFields.{stringify, lookup_key, lookup_keys, lookup_string}

-- The map has, under a key that is one of `keys` in some case, the value that prints as `s`.
pub data Holds (keys : List Text) (s : Text) : Fields → Type 0 where
  here :
      {k : Text} {raw : Json} {rest : Fields}
      → any (λ key. equal_fold k key) keys ≡ true
      → stringify raw ≡ s
      → Holds keys s (field k raw rest)
  below :
      {k : Text} {raw : Json} {rest : Fields} → Holds keys s rest → Holds keys s (field k raw rest)

more_keys :
    (key : Text) (keys : List Text) (s : Text) (m : Fields)
    → Holds keys s m
    → Holds (key ∷ keys) s m
more_keys key keys s end h = elim h [ ]
more_keys key keys s (field k raw rest) (here folds same) = here (ground (arith, folds)) same
more_keys key keys s (field k raw rest) (below h) = below (more_keys key keys s rest h)

lookup_key-Holds :
    (key : Text) (m : Fields) → lookup_key key m ≢ [] → Holds (key ∷ []) (lookup_key key m) m
unfolding lookup_key
lookup_key-Holds key end h = absurd (h refl)
lookup_key-Holds key (field k raw rest) h =
    elim (Bool-cases (equal_fold k key && not (is_empty (stringify raw)))) [
      | inl e ↦ rw e (here (ground (arith, e)) refl)
      | inr e ↦ rw e (below (lookup_key-Holds key rest (ground (arith, h, e))))
    ]

first_key :
    (key : Text) (keys : List Text) (s : Text) (m : Fields)
    → Holds (key ∷ []) s m
    → Holds (key ∷ keys) s m
first_key key keys s end h = elim h [ ]
first_key key keys s (field k raw rest) (here folds same) = here (ground (arith, folds)) same
first_key key keys s (field k raw rest) (below h) = below (first_key key keys s rest h)

lookup_keys-Holds :
    (keys : List Text) (m : Fields) → lookup_keys keys m ≢ [] → Holds keys (lookup_keys keys m) m
unfolding lookup_keys
lookup_keys-Holds [] m h = absurd (h refl)
lookup_keys-Holds (key ∷ keys) m h = elim (Bool-cases (is_empty (lookup_key key m))) [
  | inl e ↦ rw e (more_keys key keys _ m (lookup_keys-Holds keys m (ground (arith, h, e))))
  | inr e ↦ rw e (first_key key keys _ m (lookup_key-Holds key m (ground (arith, e))))
]

-- One of the maps holds the value.
pub data Among (keys : List Text) (s : Text) : List Fields → Type 0 where
  first : {m : Fields} {maps : List Fields} → Holds keys s m → Among keys s (m ∷ maps)
  later : {m : Fields} {maps : List Fields} → Among keys s maps → Among keys s (m ∷ maps)

lookup_string-Among :
    (maps : List Fields) (keys : List Text)
    → lookup_string maps keys ≢ []
    → Among keys (lookup_string maps keys) maps
unfolding lookup_string
lookup_string-Among [] keys h = absurd (h refl)
lookup_string-Among (m ∷ maps) keys h = elim (Bool-cases (is_empty (lookup_keys keys m))) [
  | inl e ↦ rw e (later (lookup_string-Among maps keys (ground (arith, h, e))))
  | inr e ↦ rw e (first (lookup_keys-Holds keys m (ground (arith, e))))
]

Holds-lookup_key :
    (key s : Text) (m : Fields) → Holds (key ∷ []) s m → s ≢ [] → lookup_key key m ≢ []
unfolding lookup_key
Holds-lookup_key key s end h ne = elim h [ ]
Holds-lookup_key key s (field k raw rest) (here folds same) ne = ground (arith, folds, same)
Holds-lookup_key key s (field k raw rest) (below h) ne =
    ground (arith, Holds-lookup_key key s rest h ne)

-- What the lookup finds is the value of one of the keys, in some case, in one of the maps of the
-- body, as `stringify` prints it.
pub lookup_string_sound :
    (maps : List Fields) (keys : List Text)
    → (lookup_string maps keys ≡ []) ⊎ Among keys (lookup_string maps keys) maps
lookup_string_sound maps keys = elim (Bool-cases (is_empty (lookup_string maps keys))) [
  | inl e ↦ inl (ground (arith, e))
  | inr e ↦ inr (lookup_string-Among maps keys (ground (arith, e)))
]

-- With one key the lookup finds something, if a map has a value under that key that is not blank.
pub Among-lookup_string :
    (maps : List Fields) (key s : Text)
    → Among (key ∷ []) s maps
    → s ≢ []
    → lookup_string maps (key ∷ []) ≢ []
unfolding lookup_string lookup_keys
Among-lookup_string [] key s h ne = elim h [ ]
Among-lookup_string (m ∷ maps) key s (first h) ne = ground (arith, Holds-lookup_key key s m h ne)
Among-lookup_string (m ∷ maps) key s (later h) ne =
    ground (arith, Among-lookup_string maps key s h ne)
