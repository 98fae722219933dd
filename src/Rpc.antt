-- ===== src/Rpc.antt =====
-- rpcauth.go: the shared token of calls between services.
pub mod Laws
mod Tests
use middle.Prelude.{Bool, true, false, ◌||◌, not, [], if◌then◌else◌}
use middle.Text.{Text, is_empty, ◌==◌, trim_space}
use middle.Http.{Context, Outcome, Headers, next, abort, get, set, x_internal_token, token}
use middle.Config.{Config}

unfoldable pub internal_token : Config → Text
internal_token cfg =
    let t = trim_space cfg.rpc_auth_token in if is_empty t then trim_space cfg.rpc_token else t

unfoldable pub valid_internal_token : Config → Text → Bool
valid_internal_token cfg got =
    let want = internal_token cfg in
    let given = trim_space got in if is_empty want || is_empty given then false else want == given

-- `SetInternalToken`, on the headers of an outgoing request.
unfoldable pub set_internal_token : Config → Headers → Headers
set_internal_token cfg hs =
    let t = internal_token cfg in if is_empty t then hs else set hs x_internal_token t

-- The token that `RPCAuthMiddleware` looks at.
unfoldable pub given_token : Headers → Text
given_token hs = let got = get hs x_internal_token in if is_empty got then get hs token else got

unfoldable pub rpc_auth_middleware : Config → Context → Outcome
rpc_auth_middleware cfg c =
    if valid_internal_token cfg (given_token c.headers)
    then next c
    else if cfg.rpc_allow_unauthenticated
    then next c
    else abort 401 c

unfoldable pub rpc_auth_configured : Config → Bool
rpc_auth_configured cfg = not (is_empty (internal_token cfg))
