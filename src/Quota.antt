-- ===== src/Quota.antt =====
-- usage_quota.go: whether a creation is refused because its tenant is over its plan, and the flow of
-- OperateLogMiddleware in oplog.go, which asks it first.
pub mod Noop
pub mod Laws
pub mod Flow
pub mod Binding
mod Tests
use middle.Prelude.{
  ℕ, ◌+◌, Bool, true, false, ◌&&◌, ◌||◌, not, List, [], ◌∷◌, ◌++◌, Option, none, some, leb, any,
  if◌then◌else◌, eqb,
}
use middle.Prelude.Int.{ℤ, pos, negsuc, is_positive}
use middle.Text.{Text, runes, is_empty, ◌==◌, trim_space, before_first}
use middle.Http.{
  Context, Headers, get, set, x_tenant_id, x_merchant_id, merchant_id, authorization, jwt,
}
use middle.Config.{Config}
use middle.User.{load_from_header}
use middle.Gateway.{set_gateway_token}
use middle.Classify.{classify_resource}
use middle.Usage.{skip_usage_merchant, usage_kind_of}
use middle.Oplog.{skip_operate_path, action_from_request, first_non_empty}
use middle.Body.{Stream, read_request_body}

-- The settings "usage.check_url" and "usage.auth_base".
pub record Endpoint : Type 0 where
  pub check_url : Text
  pub auth_base : Text

-- `strings.TrimRight(s, "/")`
unfoldable pub trim_slashes : Text → Text
trim_slashes [] = []
trim_slashes (c ∷ s) =
    let rest = trim_slashes s in if is_empty rest && eqb c b'/' then [] else c ∷ rest

unfoldable pub usage_check_url : Endpoint → Text
usage_check_url e =
    if not (is_empty (trim_space e.check_url))
    then trim_space e.check_url
    else if is_empty (trim_space e.auth_base)
    then []
    else trim_slashes (trim_space e.auth_base) ++ runes "/v1/system/auth/user/usage/check"

-- The call to the service: where it goes, and what it says. `bytes` is added to the query if it is
-- there.
pub record QuotaRequest : Type 0 where
  pub url : Text
  pub kind : Text
  pub bytes : Option ℤ
  pub headers : Headers
  pub cookie : Option Text

-- `quotaCheckBody`
pub record QuotaCheckBody : Type 0 where
  pub allowed : Bool
  pub message : Text

-- An error of the client, or a status with the body, if that is JSON.
pub data Reply : Type 0 where
  no_reply : Reply
  reply : ℕ → Option QuotaCheckBody → Reply

-- The network: whether a URL can be called at all, and the reply to a call.
pub record Service : Type 0 where
  pub callable : Text → Bool
  pub answer : QuotaRequest → Reply

abbrev pub copy_header : Text → Headers → Headers
copy_header v hs = if is_empty v then hs else set hs authorization v

abbrev pub copy_jwt : Text → Headers → Headers
copy_jwt v hs = if is_empty v then hs else set hs jwt v

unfoldable pub quota_request : Config → Context → Text → Text → Text → ℤ → QuotaRequest
quota_request cfg c url merchant kind extra = record {
  url = url;
  kind = kind;
  bytes = if is_positive extra then some extra else none;
  headers = copy_jwt (get c.headers jwt) (
      copy_header (get c.headers authorization)
        (set_gateway_token cfg (set (set (λ h. []) x_merchant_id merchant) x_tenant_id merchant)));
  cookie = c.raw_jwt_cookie;
}

-- The result of `checkQuotaRemote` is `none` for `true, ""`, and `some` message for a refusal.
abbrev pub verdict : Reply → Option Text
verdict no_reply = none
verdict (reply status none) = none
verdict (reply status (some body)) =
    if leb 400 status
    then none
    else if body.allowed
    then none
    else some
        (if is_empty (trim_space body.message) then runes "已超出套餐额度" else trim_space body.message)

unfoldable pub check_quota_remote :
    Service → Endpoint → Config → Context → Text → Text → ℤ → Option Text
check_quota_remote net e cfg c merchant kind extra =
    let url = usage_check_url e in
    if is_empty url
    then none
    else if net.callable url
    then verdict (net.answer (quota_request cfg c url merchant kind extra))
    else none

-- The path that is classified.
abbrev pub route : Context → Text
route c = if is_empty c.full_path then c.url_path else c.full_path

unfoldable pub quota_kind : Context → Text
quota_kind c = usage_kind_of (classify_resource (route c)).0

unfoldable pub quota_merchant : Context → Text
quota_merchant c = first_non_empty (
    (load_from_header c).merchant_id
    ∷ get c.headers x_tenant_id
    ∷ get c.headers x_merchant_id
    ∷ get c.headers merchant_id
    ∷ [])

-- `allowQuotaOrAbort`, with the content length: `none` if it returns true, and the message of the
-- response 402 if it aborts.
unfoldable pub allow_quota_or_abort : Service → Endpoint → Config → Context → ℤ → Option Text
allow_quota_or_abort net e cfg c len =
    if not (c.method == runes "POST")
    then none
    else if skip_operate_path (route c) c.url_path
    then none
    else if is_empty (quota_kind c)
    then none
    else if not (action_from_request c.method (route c) c.raw_query == runes "create")
    then none
    else if skip_usage_merchant (quota_merchant c)
    then none
    else check_quota_remote net e cfg c (quota_merchant c) (quota_kind c) len

-- What OperateLogMiddleware does, in order: it aborts with a status, calls the handlers with a
-- body, or calls `saveOperationLog` with the captured payload.
pub data Event : Type 0 where
  aborted : ℕ → Event
  handled : Option Stream → Event
  saved : Option (List ℕ) → Event

abbrev pub reads_only : Text → Bool
reads_only m = m == runes "GET" || m == runes "HEAD" || m == runes "OPTIONS"

abbrev pub writes : Text → Bool
writes m = m == runes "POST" || m == runes "PUT" || m == runes "PATCH" || m == runes "DELETE"

-- The handlers with the body that is left, then the row.
abbrev pub handle_and_save : Text → Option (List ℕ) × Option Stream → List Event
handle_and_save method (payload, body) =
    handled body ∷ (if writes method then saved payload ∷ [] else [])

abbrev pub after_quota : Option Text → Text → Option (List ℕ) × Option Stream → List Event
after_quota (some message) method read = aborted 402 ∷ []
after_quota none method read = handle_and_save method read

-- The flag says whether there is a database.
unfoldable pub operate_log_middleware :
    Service → Endpoint → Config → Bool → Context → Text → ℤ → Option Stream → List Event
operate_log_middleware net e cfg has_db c content_type len body =
    if reads_only c.method
    then handled body ∷ []
    else if not has_db || skip_operate_path c.full_path c.url_path
    then handled body ∷ []
    else after_quota (allow_quota_or_abort net e cfg c len) c.method
        (read_request_body content_type len body)
