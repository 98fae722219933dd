-- ===== src/Auth/Tests.antt =====
-- Sessions of jwt_test.go, and the theorems on the session middleware at concrete sessions.
use middle.Prelude.{Bool, true, [], Option, some, none, ◌≡◌, ◌⊎◌, refl, if◌then◌else◌}
use middle.Text.{Text, runes, ◌==◌}
use middle.Http.{Context, next, abort, set, x_totp_code}
use middle.User.{LoginInfo}
use middle.Login.{login_runs, write_into_header}
use middle.TenantGuard.{guard_runs}
use middle.Auth.{
  parse_jwt_token, extract_claims, check_auth, set_verified_user_id, verified_user_id,
}
use middle.Auth.Sound.{Carries, check_auth_cases}
use middle.Auth.Access.{Entitled, check_auth-owns}
use middle.Fixtures.{no_headers, forged, request, session, login, config, net, jwt_lib, key}

-- The issuer "key" holds the login of tenant-a.
abbrev load : Text → Option LoginInfo
load s = if s == runes "key" then some (login "tenant-a") else none

abbrev attack : Context
attack = session "key" (request "shop.example.com" forged)

passed : Context
unfolding login_runs
passed =
    set_verified_user_id (write_into_header net config (login "tenant-a") true attack) (runes "u-1")

refused :
    (check_auth net config jwt_lib load key (request "x" no_headers)
      ≡ abort 401 (request "x" no_headers))
    × (check_auth net config jwt_lib load [] attack ≡ abort 401 attack)
    × (check_auth net config jwt_lib load key (session "other" attack)
        ≡ abort 401 (session "other" attack))
unfolding check_auth parse_jwt_token extract_claims login_runs
refused = (refl, refl, refl)

check_auth_cases_example :
    (check_auth net config jwt_lib load key attack ≡ abort 401 attack)
    ⊎ ((l : LoginInfo) × Carries jwt_lib load key attack l
        × (check_auth net config jwt_lib load key attack
            ≡ next (set_verified_user_id (write_into_header net config l true attack) l.user_id)))
check_auth_cases_example = check_auth_cases jwt_lib load key net config attack

check_auth-owns_example :
    (l : LoginInfo) × Carries jwt_lib load key attack l
    × Entitled net config attack l (runes "tenant-a")
    × (verified_user_id passed ≡ l.user_id)
unfolding passed check_auth parse_jwt_token extract_claims guard_runs login_runs
    set_verified_user_id
check_auth-owns_example =
    check_auth-owns net config jwt_lib load key attack passed (runes "tenant-a") refl refl

abbrev resolve : LoginInfo → Text → Option Text
resolve l issuer = some (runes "seed")

abbrev validate : Text → Text → Bool
validate code secret = code == runes "123456"

abbrev coded : Context
coded = session "key" (request "shop.example.com" (set no_headers x_totp_code (runes "123456")))
