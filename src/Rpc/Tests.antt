-- ===== src/Rpc/Tests.antt =====
-- Calls of rpcauth_test.go, and the theorems on them at concrete calls.
use middle.Prelude.{true, [], ◌≡◌, ◌↔◌, ◌⊎◌, refl}
use middle.Text.{runes, text_runs, trim_space}
use middle.Http.{Context, next, abort, set, x_internal_token, token}
use middle.Rpc.{
  internal_token, valid_internal_token, set_internal_token, given_token, rpc_auth_middleware,
  rpc_auth_configured,
}
use middle.Rpc.Laws.{rpc_auth_middleware_iff, rpc_auth_middleware-set_internal_token}
use middle.Fixtures.{no_headers, request, config}

abbrev legacy : Context
legacy = request "x" (set no_headers token (runes "rpc-secret"))

abbrev wrong : Context
wrong = request "x" (set no_headers token (runes "rpc"))

calls :
    (rpc_auth_middleware config legacy ≡ next legacy)
    × (rpc_auth_middleware config wrong ≡ abort 401 wrong)
    × (rpc_auth_middleware (record config { rpc_auth_token = [] }) legacy ≡ abort 401 legacy)
unfolding rpc_auth_middleware valid_internal_token given_token internal_token text_runs
calls = (refl, refl, refl)

rpc_auth_middleware_iff_example :
    ((rpc_auth_middleware config wrong ≡ next wrong) ↔ (
      (config.rpc_allow_unauthenticated ≡ true)
      ⊎ ((rpc_auth_configured config ≡ true)
          × (trim_space (given_token wrong.headers) ≡ internal_token config))))
    × ((rpc_auth_middleware config wrong ≡ next wrong)
        ⊎ (rpc_auth_middleware config wrong ≡ abort 401 wrong))
rpc_auth_middleware_iff_example = rpc_auth_middleware_iff config wrong

abbrev outgoing : Context
outgoing = request "x" (set no_headers x_internal_token (runes "rpc-secret"))

rpc_auth_middleware-set_internal_token_instance :
    rpc_auth_middleware config outgoing ≡ next outgoing
unfolding rpc_auth_configured set_internal_token internal_token text_runs
rpc_auth_middleware-set_internal_token_instance =
    rpc_auth_middleware-set_internal_token config outgoing no_headers refl refl
