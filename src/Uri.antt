-- ===== src/Uri.antt =====
-- oplog.go: sanitizeURI, the address of a request without its secrets. net/url is the parameter
-- UrlLib.
mod Tests
pub mod Secrets
use middle.Prelude.{Bool, true, false, List, [], ◌∷◌, Option, none, some, if◌then◌else◌}
use middle.Text.{Text, runes, ◌==◌}

-- `url.Values`; a key that is missing has `none`.
abbrev pub Query : Type 0
Query = Text → Option (List Text)

-- A `url.URL`: whether it names a user, its query as text, and all else.
pub record Url (Rest : Type 0) : Type 0 where
  pub user : Option Text
  pub raw_query : Text
  pub rest : Rest

-- `Query`, `Values.Encode` and `RequestURI`.
pub record UrlLib : Type 1 where
  pub Rest : Type 0
  pub query : Text → Query
  pub encode : Query → Text
  pub request_uri : Url Rest → Text

abbrev pub secret_params : List Text
secret_params =
    runes "token"
    ∷ runes "jwt"
    ∷ runes "password"
    ∷ runes "secret"
    ∷ runes "access_token"
    ∷ runes "code"
    ∷ []

abbrev pub is_some {ℓ} : {A : Type ℓ} → Option A → Bool
is_some none = false
is_some (some x) = true

-- `q.Set(key, "***")`
abbrev pub set_stars : Text → Query → Query
set_stars key q k = if k == key then some (runes "***" ∷ []) else q k

-- The loop: each secret key that the query has is overwritten.
unfoldable pub mask_query : List Text → Query → Query
mask_query [] q = q
mask_query (key ∷ keys) q = mask_query keys (if is_some (q key) then set_stars key q else q)

module _ (lib : UrlLib) where
  abbrev pub sanitized : Url lib.Rest → Url lib.Rest
  sanitized u = record u {
    user = none;
    raw_query = lib.encode (mask_query secret_params (lib.query u.raw_query));
  }

  unfoldable pub sanitize_uri : Option (Url lib.Rest) → Text
  sanitize_uri none = []
  sanitize_uri (some u) = lib.request_uri (sanitized u)
