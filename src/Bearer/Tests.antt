-- ===== src/Bearer/Tests.antt =====
-- Bearer tokens, and the theorem on them at a concrete request.
use middle.Prelude.{true, Option, some, none, ◌≡◌, refl}
use middle.Text.{Text, runes}
use middle.Http.{Context, abort, get, set, del, authorization, x_tenant_id, x_merchant_id}
use middle.Login.{login_runs}
use middle.Auth.{Token, hmac_key, hmac_methods}
use middle.Bearer.{Claims, ParseClaims, bearer_token, jwt_auth_middleware, bearer_runs}
use middle.Bearer.Laws.{IsAccepted, jwt_auth_middleware_sound}
use middle.Fixtures.{no_headers, forged, request, config, key, toy_token}

abbrev claims_of : Option Text → Claims
claims_of mid = record {
  sub = some (runes "acc-1");
  iss = some (runes "iss");
  aud = some (runes "aud");
  jti = some (runes "jti");
  mid = mid;
}

-- Every token is valid, with the claims of an account of tenant-a.
abbrev parse : ParseClaims
parse key_of methods s = some (toy_token s, claims_of (some (runes "tenant-a")))

abbrev bearing : Context
bearing =
    request "x"
      (set (set no_headers x_merchant_id (runes "victim")) authorization (runes "Bearer abc"))

bearer_tests :
    (bearer_token (runes "Bearer a b") ≡ some (runes "a b"))
    × (bearer_token (runes "bearer a") ≡ none)
    × (jwt_auth_middleware config parse key (request "x" forged) ≡ abort 401 (request "x" forged))
unfolding bearer_runs login_runs
bearer_tests = (refl, refl, refl)

-- What `bearing` goes on as.
accepted : Context
accepted = record bearing {
  headers = del (set bearing.headers x_tenant_id (runes "tenant-a")) x_merchant_id;
  keys = record (bearing.keys) {
    account_id = some (runes "acc-1");
    iss = some (runes "iss");
    aud = some (runes "aud");
    jti = some (runes "jti");
  };
  values = record (bearing.values) {
    merchant = some (runes "tenant-a");
    account = some (runes "acc-1");
  };
}

jwt_auth_middleware_sound_example :
    (t : Text) × (parsed : Token) × (claims : Claims) × (bearer_token
        (get bearing.headers authorization)
      ≡ some t)
    × (parse (hmac_key key) hmac_methods t ≡ some (parsed, claims))
    × (parsed.valid ≡ true)
    × IsAccepted config claims bearing accepted
unfolding accepted bearer_runs login_runs
jwt_auth_middleware_sound_example = jwt_auth_middleware_sound config parse key bearing accepted refl
