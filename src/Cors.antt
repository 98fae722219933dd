-- ===== src/Cors.antt =====
-- cors.go: what CORSMiddleware puts into the response and the request context.
pub mod Namespace
use middle.Prelude.{Bool, true, false, ◌&&◌, not, List, [], ◌∷◌, Option, some, if◌then◌else◌}
use middle.Text.{Text, runes, is_empty, ◌==◌}
use middle.Json.{Json, str}
use middle.Http.{Context, Outcome, next, abort}
use middle.Config.{Config, Net}
use middle.Tenant.{is_super_admin_host, request_admin_host}
use middle.Login.{star}

-- `context.WithValue(ctx, model.NamespaceKey, "*")`, under the flag.
abbrev pub with_star : Bool → Context → Context
with_star true c = record c { values = record (c.values) { namespace = some star } }
with_star false c = c

-- On the console's host the namespace is "*", before anyone is authenticated.
unfoldable pub with_namespace : Net → Config → Context → Context
with_namespace net cfg c =
    with_star
      (not (c.method == runes "OPTIONS") && is_super_admin_host cfg (request_admin_host net cfg c))
      c

-- The headers of the response, by name.
abbrev pub response_headers : Text → List (Text × Text)
response_headers host =
    (runes "Access-Control-Allow-Origin", host)
    ∷ (runes "Access-Control-Allow-Credentials", runes "true")
    ∷ (
      runes "Access-Control-Allow-Headers",
      runes
          "Content-Type, Content-Length, Accept-Encoding, X-CSRF-Token, Authorization, accept, origin, Cache-Control, X-Requested-With, Merchant-Id, X-Merchant-ID, X-Tenant-ID, jwt, User-Id, Content-Range, X-Total-Count, Token, X-WeChat-AppId, X-Client-Id, X-Client-Version, X-Device-ID",
    )
    ∷ (runes "Access-Control-Allow-Methods", runes "POST, OPTIONS, GET, PUT, DELETE")
    ∷ (runes "Access-Control-Expose-Headers", runes "Content-Range,X-Total-Count")
    ∷ []

-- The "RequestID" of the request if it is a string and not empty, or else the random id.
abbrev pub chosen_trace_id : Text → Option Json → Text
chosen_trace_id random (some (str s)) = if is_empty s then random else s
chosen_trace_id random _ = random

-- The values "traceid" and "ip" of the context, which open4go/log reads, beside those of Http.
pub record Answer : Type 0 where
  pub response : List (Text × Text)
  pub trace_id : Text
  pub ip : Text
  pub outcome : Outcome

-- `generateTraceID` gives `random`, and `c.ClientIP()` gives `ip`.
unfoldable pub cors_middleware : Text → Text → Option Json → Text → Net → Config → Context → Answer
cors_middleware host random request_id ip net cfg c = record {
  response = response_headers host;
  trace_id = chosen_trace_id random request_id;
  ip = ip;
  outcome =
      if c.method == runes "OPTIONS"
      then abort 204 (with_namespace net cfg c)
      else next (with_namespace net cfg c);
}
