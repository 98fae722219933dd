-- ===== src/WxAuth/Tests.antt =====
-- A token with an empty field in the cache, and the theorem at it.
use middle.Prelude.{[], ◌++◌, none, some, ◌≡◌, refl, if◌then◌else◌}
use middle.Text.{Text, runes, ◌==◌, text_runs}
use middle.Http.{
  Context, next, abort, get, set, token, open_id, wx_account_id, union_id, session_key,
}
use middle.WxAuth.{Cache, read_cache_by_token, verify_fields, verify_token_middleware}
use middle.WxAuth.Fields.{taken, verify_token_middleware_sound}
use middle.Fixtures.{no_headers, request}

abbrev cache : Cache
cache key field =
    if key == runes "wx_tokens_t1"
    then if field == runes "OPEN_ID" then some [] else some (runes "cached")
    else none

abbrev given : Context
given = request "x" (set (set no_headers token (runes "t1")) open_id (runes "forged"))

abbrev passed : Context
passed = record given {
  headers =
      set (set (set given.headers wx_account_id (runes "cached")) union_id (runes "cached"))
        session_key (runes "cached");
}

passes : verify_token_middleware cache given ≡ next passed
unfolding verify_token_middleware verify_fields read_cache_by_token text_runs
passes = refl

unknown_token :
    verify_token_middleware cache (request "x" no_headers) ≡ abort 403 (request "x" no_headers)
unfolding verify_token_middleware verify_fields read_cache_by_token text_runs
unknown_token = refl

verify_token_middleware_sound_example :
    let key = runes "wx_tokens_" ++ get given.headers token in
    (o : Text) × (a : Text) × (u : Text) × (s : Text) × (cache key (runes "OPEN_ID") ≡ some o)
    × (cache key (runes "ACCOUNT_ID") ≡ some a)
    × (cache key (runes "UNION_ID") ≡ some u)
    × (cache key (runes "SESSION_KEY") ≡ some s)
    × (get passed.headers open_id ≡ taken o (get given.headers open_id))
    × (get passed.headers wx_account_id ≡ taken a (get given.headers wx_account_id))
    × (get passed.headers union_id ≡ taken u (get given.headers union_id))
    × (get passed.headers session_key ≡ taken s (get given.headers session_key))
verify_token_middleware_sound_example = verify_token_middleware_sound cache given passed passes
