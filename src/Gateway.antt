-- ===== src/Gateway.antt =====
-- gateway.go and the token half of rpcauth.go: shared tokens, and when a tenant header is believed.
use middle.Prelude.{Bool, true, false, ◌||◌, if◌then◌else◌}
use middle.Text.{Text, is_empty, ◌==◌, trim_space}
use middle.Http.{Context, Headers, get, set, x_gateway_token}
use middle.Config.{Config}

unfoldable pub gateway_token : Config → Text
gateway_token cfg = trim_space cfg.gateway_token

-- `subtle.ConstantTimeCompare` is 1 exactly on equal contents.
unfoldable pub valid_gateway_token : Config → Text → Bool
valid_gateway_token cfg got =
    let want = gateway_token cfg in
    let given = trim_space got in if is_empty want || is_empty given then false else want == given

unfoldable pub from_gateway : Config → Context → Bool
from_gateway cfg c = valid_gateway_token cfg (get c.headers x_gateway_token)

unfoldable pub trust_tenant_header : Config → Context → Bool
trust_tenant_header cfg c = if from_gateway cfg c then true else cfg.gateway_allow_unverified

-- `SetGatewayToken`, on the headers of an outgoing request.
unfoldable pub set_gateway_token : Config → Headers → Headers
set_gateway_token cfg hs =
    let t = gateway_token cfg in if is_empty t then hs else set hs x_gateway_token t
