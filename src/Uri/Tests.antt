-- ===== src/Uri/Tests.antt =====
-- An address with a token, for a library that knows two queries.
use middle.Prelude.{[], ◌∷◌, none, some, any, ◌≡◌, refl, if◌then◌else◌}
use middle.Text.{Text, runes, ◌==◌, text_runs}
use middle.Uri.{Query, Url, UrlLib, secret_params, mask_query, sanitized, sanitize_uri}
use middle.Uri.Secrets.{stars_over, sanitize_uri_lem}

abbrev one_param : Text → Text → Query
one_param key value k = if k == key then some (value ∷ []) else none

-- It prints every query as the text of its token.
abbrev lib : UrlLib
lib = record {
  Rest = Text;
  query = λ s. one_param (runes "token") s;
  encode = λ q. elim (q (runes "token")) [ none ↦ [] | some vs ↦ elim vs [ [] ↦ [] | v ∷ _ ↦ v ] ];
  request_uri = λ u. u.rest;
}

abbrev url : Url Text
url = record { user = some (runes "root"); raw_query = runes "t0k"; rest = runes "/x" }

sanitize_uri_lem_example :
    (sanitize_uri lib (some url) ≡ runes "/x")
    × ((sanitized lib url).user ≡ none)
    × ((sanitized lib url).rest ≡ runes "/x")
    × (lib.query (sanitized lib url).raw_query (runes "token") ≡ (
        if any (λ key. runes "token" == key) secret_params
        then stars_over (lib.query url.raw_query (runes "token"))
        else lib.query url.raw_query (runes "token")))
unfolding mask_query text_runs
sanitize_uri_lem_example = sanitize_uri_lem lib url (runes "token") refl
