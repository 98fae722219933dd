-- ===== src/WxAuth.antt =====
-- wx_auth.go: the login of a WeChat mini program. Redis is the parameter `hget`: the value of a
-- field of a hash, or `none` for an error, a missing field included.
pub mod Fields
mod Tests
use middle.Prelude.{Bool, true, false, List, [], ◌∷◌, ◌++◌, Option, none, some, if◌then◌else◌}
use middle.Text.{Text, runes, is_empty}
use middle.Http.{
  Header, Headers, Context, Outcome, next, abort, ◌>>=◌, get, set, token, open_id, wx_account_id,
  union_id, session_key,
}

-- A field of the hash, and the header that it is put into; both have the same name in the source.
pub record LoginField : Type 0 where
  pub name : Text
  pub header : Header

abbrev pub login_field : Text → Header → LoginField
login_field name header = record { name = name; header = header }

abbrev pub wx_login_fields : List LoginField
wx_login_fields =
    login_field (runes "OPEN_ID") open_id
    ∷ login_field (runes "ACCOUNT_ID") wx_account_id
    ∷ login_field (runes "UNION_ID") union_id
    ∷ login_field (runes "SESSION_KEY") session_key
    ∷ []

abbrev pub Cache : Type 0
Cache = Text → Text → Option Text

-- `readCacheByToken` on what Redis gives: the headers after it, or `none` for its error. An empty
-- value is logged and `err`, which is nil there, is returned.
abbrev pub put_value : Option Text → Header → Headers → Option Headers
put_value none h hs = none
put_value (some value) h hs = if is_empty value then some hs else some (set hs h value)

unfoldable pub read_cache_by_token : Cache → Text → LoginField → Headers → Option Headers
read_cache_by_token hget key f hs = put_value (hget key f.name) f.header hs

-- The loop of `VerifyTokenMiddleware`: the headers that earlier fields have set stay on an abort.
unfoldable pub verify_fields : Cache → Text → List LoginField → Context → Outcome
verify_fields hget key [] c = next c
verify_fields hget key (f ∷ fs) c = elim (read_cache_by_token hget key f c.headers) [
  | none ↦ abort 403 c
  | some hs ↦ verify_fields hget key fs (record c { headers = hs })
]

unfoldable pub verify_token_middleware : Cache → Context → Outcome
verify_token_middleware hget c =
    verify_fields hget (runes "wx_tokens_" ++ get c.headers token) wx_login_fields c
