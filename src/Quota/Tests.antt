-- ===== src/Quota/Tests.antt =====
-- The calls of usage_quota_test.go, and the theorems at them.
use middle.Prelude.{◌≢◌, ◌⊎◌, arith, true, false, [], ◌∷◌, Option, some, none, ◌≡◌, ◌↔◌, refl, take}
use middle.Prelude.Int.{pos}
use middle.Text.{trim_space, runes, text_runs}
use middle.Http.{Context, set, get, x_merchant_id, x_tenant_id}
use middle.User.{load_from_header}
use middle.Usage.{usage_kind_of, skip_usage_merchant}
use middle.Classify.{classify_resource, classify_runs}
use middle.Oplog.{
  row_merchant, merchant_from_before, skip_operate_path, action_from_request, action_from_method,
  first_non_empty,
}
use middle.Body.{Stream, whole, read_request_body, skip_request_body_capture}
use middle.Quota.{
  Endpoint, trim_slashes, usage_check_url, QuotaRequest, reply, no_reply, Service, quota_request,
  check_quota_remote, quota_kind, quota_merchant, allow_quota_or_abort, handled, saved,
  operate_log_middleware,
}
use middle.Quota.Laws.{IsOverPlan, allow_quota_or_abort_iff, quota_request_merchant}
use middle.Login.{allow_switch, write_into_header, login_runs}
use middle.Quota.Flow.{IsLogged, operate_log_middleware-IsLogged}
use middle.Quota.Binding.{quota_merchant-write_into_header, row_merchant-write_into_header}
use middle.Fixtures.{no_headers, request, config, forged, login, net}

abbrev upload : Context
upload = record (request "x" (set no_headers x_merchant_id (runes "m1"))) {
  method = runes "POST";
  full_path = [];
  url_path = runes "/v1/system/fs/client/image";
}

abbrev endpoint : Endpoint
endpoint = record { check_url = []; auth_base = runes " http://auth// " }

denying : Service
denying = record {
  callable = λ u. true;
  answer = λ q. reply 200 (some (record { allowed = false; message = [] }));
}

down : Service
down = record { callable = λ u. true; answer = λ q. no_reply }

url_joined : usage_check_url endpoint ≡ runes "http://auth/v1/system/auth/user/usage/check"
unfolding usage_check_url trim_slashes text_runs
url_joined = refl

denied : allow_quota_or_abort denying endpoint config upload (pos 10) ≡ some (runes "已超出套餐额度")
unfolding allow_quota_or_abort check_quota_remote usage_check_url trim_slashes quota_kind
    quota_merchant quota_request load_from_header usage_kind_of skip_usage_merchant
    classify_resource classify_runs skip_operate_path action_from_request action_from_method
    first_non_empty text_runs denying
denied = refl

fails_open : allow_quota_or_abort down endpoint config upload (pos 10) ≡ none
unfolding allow_quota_or_abort check_quota_remote usage_check_url trim_slashes quota_kind
    quota_merchant load_from_header usage_kind_of skip_usage_merchant classify_resource
    classify_runs skip_operate_path action_from_request action_from_method first_non_empty text_runs
    down
fails_open = refl

allow_quota_or_abort_iff_example :
    (allow_quota_or_abort denying endpoint config upload (pos 10) ≡ some (runes "已超出套餐额度"))
    ↔ IsOverPlan denying endpoint config upload (pos 10) (runes "已超出套餐额度")
allow_quota_or_abort_iff_example =
    allow_quota_or_abort_iff denying endpoint config upload (pos 10) (runes "已超出套餐额度")

abbrev call : QuotaRequest
call = quota_request config upload (runes "http://auth") (runes "m1") (runes "image") (pos 10)

quota_request_merchant_instance :
    (get call.headers x_merchant_id ≡ runes "m1")
    × (get call.headers x_tenant_id ≡ runes "m1")
    × (call.cookie ≡ upload.raw_jwt_cookie)
quota_request_merchant_instance =
    quota_request_merchant config upload (runes "http://auth") (runes "m1") (runes "image") (pos 10)

abbrev body : Option Stream
body = some (whole (runes "{}"))

upload_logged :
    operate_log_middleware down endpoint config true upload (runes "application/json") (pos 2) body
    ≡ handled body ∷ saved (some (runes "{}")) ∷ []
unfolding operate_log_middleware read_request_body skip_request_body_capture skip_operate_path
    text_runs take allow_quota_or_abort check_quota_remote usage_check_url trim_slashes quota_kind
    quota_merchant load_from_header usage_kind_of skip_usage_merchant classify_resource
    classify_runs action_from_request action_from_method first_non_empty down
upload_logged = refl

operate_log_middleware-IsLogged_example :
    IsLogged true
      (allow_quota_or_abort down endpoint config upload (pos 2))
      upload
      body
      (read_request_body (runes "application/json") (pos 2) body)
      (operate_log_middleware down endpoint config true upload
        (runes "application/json")
        (pos 2)
        body)
operate_log_middleware-IsLogged_example =
    operate_log_middleware-IsLogged down endpoint config true upload (runes "application/json")
      (pos 2) body

-- A client that forges its tenant, behind the session of a login of tenant-a.
abbrev forger : Context
forger = request "shop.example.com" forged

own_merchant_given :
    (allow_switch net config (login "tenant-a") forger true ≡ false)
    × (trim_space (runes "tenant-a") ≢ [])
    × (skip_usage_merchant (trim_space (runes "tenant-a")) ≡ false)
unfolding login_runs skip_usage_merchant
own_merchant_given = (refl, λ e. ground arith, refl)

quota_merchant-write_into_header_example :
    quota_merchant (write_into_header net config (login "tenant-a") true forger)
    ≡ trim_space (runes "tenant-a")
quota_merchant-write_into_header_example =
    quota_merchant-write_into_header net config (login "tenant-a") forger (own_merchant_given.0)
      (own_merchant_given.1) (own_merchant_given.2)

row_merchant-write_into_header_instance :
    (row_merchant
        (write_into_header net config (login "tenant-a") true forger)
        (runes "victim")
        (runes "update")
        none
      ≡ trim_space (runes "tenant-a"))
    ⊎ ((runes "update" ≡ runes "delete")
        × (row_merchant
              (write_into_header net config (login "tenant-a") true forger)
              (runes "victim")
              (runes "update")
              none
            ≡ merchant_from_before none)
        × (skip_usage_merchant (merchant_from_before none) ≡ false))
row_merchant-write_into_header_instance =
    row_merchant-write_into_header net config (login "tenant-a") forger (own_merchant_given.0)
      (own_merchant_given.1) (own_merchant_given.2) (runes "victim") (runes "update") none
