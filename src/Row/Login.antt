-- ===== src/Row/Login.antt =====
-- log.go: the log of logins.
use middle.Prelude.{
  ℕ, Bool, true, false, ◌&&◌, not, List, [], ◌∷◌, Option, ltb, ◌≡◌, ◌≢◌, if◌then◌else◌,
}
use middle.Prelude.Int.{ℤ}
use middle.Text.{Text, runes, is_empty, ◌==◌, trim_space}
use middle.Text.Utf8.{runes_of}
use middle.Http.{Context, get, x_tenant_id, x_merchant_id}
use middle.Config.{Config, Net}
use middle.User.{LoginInfo, load_from_header}
use middle.Login.{allow_switch, write_into_header}
use middle.Usage.{skip_usage_merchant}
use middle.Oplog.{first_non_empty}
use middle.Body.{Stream, read_request_body, truncate_runes}
use middle.BodyFields.{extract_body_fields, login_log_type}
use middle.Client.{resolve_client}
use middle.ClientIp.{client_remote_ip, locate_ip_zh}
use middle.Device.{parse_device_zh}
use middle.Quota.{Event, handled, saved}
use middle.Quota.Binding.{header-write_into_header, first_non_empty_trimmed}
use middle.Row.{
  Logged, MetaModel, Now, with_log_identity, complete_meta, request_trace_id, parse_access_level,
}
use middle.Row.Operation.{Env, decoded}

-- `login.Model`
pub record LoginModel : Type 0 where
  pub client_ip : Text
  pub remote_ip : Text
  pub ip_location : Text
  pub client : Text
  pub client_version : Text
  pub device_id : Text
  pub full_path : Text
  pub method : Text
  pub resp_code : ℕ
  pub target_id : Text
  pub device : Text
  pub log_type : Text
  pub user_id : Text
  pub account_id : Text
  pub user_name : Text
  pub phone : Text
  pub login_type : Text
  pub merchant_id : Text
  pub trace_id : Text
  pub user_agent : Text
  pub meta : MetaModel

-- The candidates for the merchant of a login.
abbrev pub login_candidates : Context → LoginInfo → Text → List Text
login_candidates c l body_merchant =
    l.merchant_id
    ∷ get c.headers x_tenant_id
    ∷ get c.headers x_merchant_id
    ∷ body_merchant
    ∷ l.namespace
    ∷ []

-- The row that `saveLoginLog` inserts.
unfoldable pub login_model : Env → Now → Logged → List ℕ → LoginModel
login_model env now c payload =
    let l = load_from_header c.http in
    let body = extract_body_fields (decoded env (runes_of payload)) in
    let path = if is_empty c.http.full_path then c.http.url_path else c.http.full_path in
    let phone = first_non_empty (l.phone ∷ body.phone ∷ []) in
    let user_id = first_non_empty (l.user_id ∷ body.user_id ∷ []) in
    let account_id = first_non_empty (l.account_id ∷ body.account_id ∷ []) in
    let merchant_id = first_non_empty (login_candidates c.http l body.merchant_id) in
    let ip = client_remote_ip env.net c.visit in
    let client = resolve_client env.url_host env.clients c.client in
    record {
      client_ip = c.visit.client_ip;
      remote_ip = ip;
      ip_location = locate_ip_zh env.net env.locator ip;
      client = client.0;
      client_version = client.1;
      device_id = truncate_runes (first_non_empty (c.device_id ∷ c.device_id ∷ [])) 128;
      full_path = path;
      method = c.http.method;
      resp_code = c.status;
      target_id = first_non_empty (user_id ∷ account_id ∷ phone ∷ []);
      device = parse_device_zh env.regexps c.user_agent;
      log_type = login_log_type path c.http.url_path;
      user_id = user_id;
      account_id = account_id;
      user_name = l.user_name;
      phone = phone;
      login_type = first_non_empty (l.login_type ∷ body.login_type ∷ body.type ∷ []);
      merchant_id = merchant_id;
      trace_id = request_trace_id c;
      user_agent = truncate_runes c.user_agent 240;
      meta = complete_meta now (env.init (with_log_identity c.http.values l merchant_id)) (record {
        access_level = parse_access_level l.login_level;
        success = ltb c.status 400;
        merchant_id = merchant_id;
        account_id = account_id;
        namespace = l.namespace;
        operator = first_non_empty (user_id ∷ account_id ∷ phone ∷ []);
      });
    }

-- `LoginLogMiddleware`: the handlers with the body that is left, then the row. The flags say whether
-- there is a database and whether views are skipped.
unfoldable pub login_log_middleware : Bool → Bool → Text → Text → ℤ → Option Stream → List Event
login_log_middleware has_db skip_view_log method content_type len body =
    let (payload, rest) = read_request_body content_type len body in
    if not has_db
    then handled body ∷ []
    else if method == runes "GET" && skip_view_log
    then handled body ∷ []
    else handled rest ∷ saved payload ∷ []

-- Behind the session of a login that has its own merchant, not a shared one, and may not switch, the
-- row of a login is for that merchant, whatever the headers and the body of the client say.
pub login_model-write_into_header :
    (net : Net) (cfg : Config) (l : LoginInfo) (c : Context) (env : Env) (now : Now)
    (logged : Logged) (payload : List ℕ)
    → allow_switch net cfg l c true ≡ false
    → trim_space l.merchant_id ≢ []
    → skip_usage_merchant (trim_space l.merchant_id) ≡ false
    → logged.http ≡ write_into_header net cfg l true c
    → (login_model env now logged payload).merchant_id ≡ trim_space l.merchant_id
unfolding login_model load_from_header
login_model-write_into_header net cfg l c env now logged payload denied has own behind =
    rw (behind, header-write_into_header net cfg l c denied has own)
      (first_non_empty_trimmed l.merchant_id _ has)
