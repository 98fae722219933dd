-- ===== src/Rpc/Laws.antt =====
-- Which calls between services pass.
use middle.Prelude.{true, [], ◌≡◌, ◌≢◌, ◌↔◌, ◌⊎◌, arith}
use middle.Text.{Text, trim_space}
use middle.Text.Equality.{eq_iff}
use middle.Text.Trim.{trim_space_idem}
use middle.Http.{Context, Headers, next, abort}
use middle.Config.{Config}
use middle.Rpc.{
  internal_token, valid_internal_token, set_internal_token, given_token, rpc_auth_middleware,
  rpc_auth_configured,
}

pub valid_internal_token_iff :
    (cfg : Config) (got : Text)
    → (valid_internal_token cfg got ≡ true)
      ↔ ((internal_token cfg ≢ []) × (trim_space got ≡ internal_token cfg))
unfolding valid_internal_token
valid_internal_token_iff cfg got = (
  λ h. ground (arith, eq_iff (internal_token cfg) (trim_space got)),
  λ (ne, e). ground (arith, eq_iff (internal_token cfg) (trim_space got)),
)

-- A call passes, unchanged, exactly if the switch for the transition is on or it carries the
-- configured token; every other call is answered with 401, and all are if no token is configured.
pub rpc_auth_middleware_iff :
    (cfg : Config) (c : Context)
    → ((rpc_auth_middleware cfg c ≡ next c) ↔ (
        (cfg.rpc_allow_unauthenticated ≡ true)
        ⊎ ((rpc_auth_configured cfg ≡ true)
            × (trim_space (given_token c.headers) ≡ internal_token cfg))))
      × ((rpc_auth_middleware cfg c ≡ next c) ⊎ (rpc_auth_middleware cfg c ≡ abort 401 c))
unfolding rpc_auth_middleware rpc_auth_configured
rpc_auth_middleware_iff cfg c =
    let (to, from) = valid_internal_token_iff cfg (given_token c.headers) in
    ((λ h. ground arith, λ h. ground arith), ground arith)

internal_token-trim : (cfg : Config) → trim_space (internal_token cfg) ≡ internal_token cfg
unfolding internal_token
internal_token-trim cfg =
    ground (arith, trim_space_idem cfg.rpc_auth_token, trim_space_idem cfg.rpc_token)

-- A call with the headers that `SetInternalToken` gives to an outgoing request is accepted by a
-- service with the same settings, if a token is configured.
pub rpc_auth_middleware-set_internal_token :
    (cfg : Config) (c : Context) (hs : Headers)
    → rpc_auth_configured cfg ≡ true
    → c.headers ≡ set_internal_token cfg hs
    → rpc_auth_middleware cfg c ≡ next c
unfolding rpc_auth_middleware rpc_auth_configured set_internal_token given_token
rpc_auth_middleware-set_internal_token cfg c hs configured sent =
    let given : given_token c.headers ≡ internal_token cfg = rw sent (ground arith) in
    let valid =
      (valid_internal_token_iff cfg (given_token c.headers)).1
        (ground arith, rw given (internal_token-trim cfg)) in
    rw valid
