-- ===== src/Uri/Secrets.antt =====
-- What is left of the query of a logged address.
use middle.Prelude.{
  Bool, true, false, List, [], ◌∷◌, Option, none, some, any, ◌≡◌, refl, arith, ◌∙◌, Bool-cases,
  Option-cases, inl, inr, if◌then◌else◌,
}
use middle.Text.{Text, runes, ◌==◌}
use middle.Text.Equality.{eq_iff, eq_refl}
use middle.Uri.{
  Query, Url, UrlLib, is_some, set_stars, secret_params, mask_query, sanitized, sanitize_uri,
}

-- A value that is there is overwritten.
abbrev pub stars_over : Option (List Text) → Option (List Text)
stars_over none = none
stars_over (some vs) = some (runes "***" ∷ [])

starred_twice :
    (b : Bool) (o : Option (List Text))
    → (if b then stars_over (stars_over o) else stars_over o) ≡ stars_over o
starred_twice false o = refl
starred_twice true none = refl
starred_twice true (some vs) = refl

set_stars_same :
    (key : Text) (q : Query)
    → (if is_some (q key) then set_stars key q else q) key ≡ stars_over (q key)
set_stars_same key q = elim (Option-cases (q key)) [
  | inl e ↦ rw e e
  | inr (vs, e) ↦ rw (e, eq_refl key) refl
]

set_stars_other :
    (key k : Text) (q : Query)
    → k == key ≡ false
    → (if is_some (q key) then set_stars key q else q) k ≡ q k
set_stars_other key k q h = ground (arith, h)

mask_query_at :
    (keys : List Text) (q : Query) (k : Text)
    → mask_query keys q k ≡ (if any (λ key. k == key) keys then stars_over (q k) else q k)
unfolding mask_query
mask_query_at [] q k = refl
mask_query_at (key ∷ keys) q k = elim (Bool-cases (k == key)) [
  | inl same ↦
      rw
        (
          mask_query_at keys (if is_some (q key) then set_stars key q else q) k,
          (eq_iff k key).0 same,
          set_stars_same key q,
          eq_refl key,
        )
        (starred_twice (any (λ key'. key == key') keys) (q key))
  | inr other ↦
      rw
        (
          mask_query_at keys (if is_some (q key) then set_stars key q else q) k,
          set_stars_other key k q other,
          other,
        )
        refl
]

-- Provided that net/url reads back the query that it printed, the logged address names no user, and
-- each parameter of its query is that of the request, but for the secret ones, of which only three
-- stars are left.
pub sanitize_uri_lem :
    (lib : UrlLib) (u : Url lib.Rest) (k : Text)
    → lib.query (lib.encode (mask_query secret_params (lib.query u.raw_query))) k
      ≡ mask_query secret_params (lib.query u.raw_query) k
    → (sanitize_uri lib (some u) ≡ lib.request_uri (sanitized lib u))
      × ((sanitized lib u).user ≡ none)
      × ((sanitized lib u).rest ≡ u.rest)
      × (lib.query (sanitized lib u).raw_query k ≡ (
          if any (λ key. k == key) secret_params
          then stars_over (lib.query u.raw_query k)
          else lib.query u.raw_query k))
unfolding sanitize_uri
sanitize_uri_lem lib u k reads_back =
    (refl, refl, refl, reads_back ∙ mask_query_at secret_params (lib.query u.raw_query) k)
