-- ===== src/Row/Operation.antt =====
-- oplog.go: parseOperationFields and saveOperationLog, from the request to the row.
use middle.Prelude.{ℕ, ltb, List, [], ◌∷◌, ◌++◌, Option, none, some, if◌then◌else◌}
use middle.Prelude.Int.{ℤ}
use middle.Text.{Text, runes, is_empty, ◌==◌, trim_space, has_prefix, without}
use middle.Text.Utf8.{runes_of}
use middle.Json.{Json}
use middle.Http.{Values}
use middle.User.{LoginInfo, load_from_header}
use middle.Oplog.{first_non_empty, action_from_request, row_merchant}
use middle.BodyFields.{Decoded, blank, json, form, undecoded, extract_body_fields}
use middle.Body.{truncate_runes, short_id}
use middle.Classify.{PathClass, classify_path}
use middle.Client.{Clients, resolve_client}
use middle.ClientIp.{NetIp, client_remote_ip, locate_ip_zh}
use middle.Device.{Regexps, parse_device_zh}
use middle.Uri.{UrlLib, Url, sanitize_uri}
use middle.Redact.Shown.{Printer, redact_json}
use middle.Compress.{Codec, compress_audit_bodies}
use middle.Row.{
  Logged, MetaModel, Now, context_string, resolve_target, request_trace_id, parse_access_level,
  with_log_identity, complete_meta,
}

-- What the logger has at hand: the tables of the clients, the libraries, and `Init` of open4go's
-- model, which reads the context of the request. `truncate` is the integral part of a number by its
-- text.
pub record Env : Type 1 where
  pub url_host : Text → Option Text
  pub clients : Clients
  pub net : NetIp
  pub locator : Option (Text → Text)
  pub regexps : Regexps
  pub urls : UrlLib
  pub parse_query : Text → Option (Text → Text)
  pub printer : Printer
  pub codec : Codec
  pub truncate : Text → ℤ
  pub init : Values → MetaModel

-- `extractBodyFields` tries JSON, then the values of a query.
abbrev pub form_or_nothing : Option (Text → Text) → Decoded
form_or_nothing (some get) = form get
form_or_nothing none = undecoded

abbrev pub json_or_form : Option Json → Option (Text → Text) → Decoded
json_or_form (some v) later = json v
json_or_form none later = form_or_nothing later

abbrev pub decoded : Env → Text → Decoded
decoded env raw =
    let s = trim_space raw in
    if is_empty s then blank else json_or_form (env.printer.decode s) (env.parse_query s)

pub record OperationFields : Type 0 where
  pub client_ip : Text
  pub remote_ip : Text
  pub full_path : Text
  pub method : Text
  pub resp_code : ℕ
  pub target_id : Text
  pub target_name : Text
  pub device : Text
  pub operator : Text
  pub operator_phone : Text
  pub login_type : Text
  pub user_id : Text
  pub account_id : Text
  pub before : Text
  pub after : Text
  pub class : PathClass
  pub action : Text
  pub request_uri : Text
  pub user_agent : Text
  pub merchant_id : Text
  pub namespace : Text
  pub trace_id : Text
  pub client : Text
  pub client_version : Text
  pub device_id : Text
  pub ip_location : Text
  pub latency_ms : ℕ
  pub access_level : ℕ

-- The path of the route without the names of its ids, or else that of the request.
abbrev pub logged_path : Text → Text → Text
logged_path full_path url_path =
    let p = without (runes "/:id") (without (runes "/:_id") full_path) in
    if is_empty p then url_path else p

abbrev pub before_keys : List Text
before_keys = runes "Before" ∷ runes "OldData" ∷ []

-- What `merchantFromBefore` decodes.
abbrev pub decoded_before : Env → Text → Option Json
decoded_before env raw =
    let s = trim_space raw in if has_prefix s (runes "{") then env.printer.decode s else none

unfoldable pub parse_operation_fields :
    (env : Env) → Logged → Option (Url (env.urls.Rest)) → LoginInfo → List ℕ → OperationFields
parse_operation_fields env c url l payload =
    let path = logged_path c.http.full_path c.http.url_path in
    let body = extract_body_fields (decoded env (runes_of payload)) in
    let target = resolve_target c body in
    let action = action_from_request c.http.method path c.http.raw_query in
    let before = context_string c before_keys in
    let ip = client_remote_ip env.net c.visit in
    let client = resolve_client env.url_host env.clients c.client in
    record {
      client_ip = c.visit.client_ip;
      remote_ip = ip;
      full_path = path;
      method = c.http.method;
      resp_code = c.status;
      target_id = target.0;
      target_name = target.1;
      device = parse_device_zh env.regexps c.user_agent;
      operator =
          first_non_empty (l.user_name ∷ l.phone ∷ l.account_id ∷ l.user_id ∷ runes "unknown" ∷ []);
      operator_phone = l.phone;
      login_type = l.login_type;
      user_id = l.user_id;
      account_id = l.account_id;
      before = before;
      after = runes_of (redact_json env.printer (runes_of payload));
      class = classify_path path;
      action = action;
      request_uri = sanitize_uri env.urls url;
      user_agent = truncate_runes c.user_agent 240;
      merchant_id = row_merchant c.http body.merchant_id action (decoded_before env before);
      namespace = l.namespace;
      trace_id = request_trace_id c;
      client = client.0;
      client_version = client.1;
      device_id = truncate_runes (first_non_empty (c.device_id ∷ c.device_id ∷ [])) 128;
      ip_location = locate_ip_zh env.net env.locator ip;
      latency_ms = c.latency_ms;
      access_level = parse_access_level l.login_level;
    }

-- `BuildOperationSummary`
abbrev pub verb_of : Text → Text
verb_of action =
    if action == runes "create"
    then runes "新增"
    else if action == runes "update"
    then runes "更新"
    else if action == runes "delete"
    then runes "删除"
    else if action == runes "notify"
    then runes "通知"
    else if action == runes "transfer"
    then runes "转移"
    else if action == runes "reset"
    then runes "重置"
    else action

abbrev pub or_default : Text → Text → Text
or_default s d = if is_empty s then d else s

unfoldable pub build_operation_summary : Text → Text → Text → Text → Text → Text
build_operation_summary operator action resource_name target_id target_name =
    let target = first_non_empty (target_name ∷ short_id target_id ∷ []) in
    let head =
      or_default operator (runes "系统")
      ++ (runes " " ++ (verb_of action ++ (runes "了 " ++ or_default resource_name (runes "资源")))) in
    if is_empty target then head else head ++ (runes " " ++ target)

-- `operation.Model`: the fields that were parsed, what is stored of the bodies (as bytes), the summary
-- and the meta data.
pub record Model : Type 0 where
  pub fields : OperationFields
  pub before : List ℕ
  pub after : List ℕ
  pub summary : Text
  pub timestamp : ℕ
  pub meta : MetaModel

unfoldable pub operation_model :
    (env : Env) → Now → Logged → Option (Url (env.urls.Rest)) → List ℕ → Model
operation_model env now c url payload =
    let l = load_from_header c.http in
    let f = parse_operation_fields env c url l payload in
    let stored = compress_audit_bodies env.codec f.action f.before f.after in
    record {
      fields = f;
      before = stored.0;
      after = stored.1;
      summary = build_operation_summary f.operator f.action f.class.label f.target_id f.target_name;
      timestamp = now.seconds;
      meta =
          complete_meta now (env.init (with_log_identity c.http.values l f.merchant_id)) (record {
            access_level = f.access_level;
            success = ltb f.resp_code 400;
            merchant_id = f.merchant_id;
            account_id = f.account_id;
            namespace = f.namespace;
            operator = first_non_empty (f.user_id ∷ f.account_id ∷ []);
          });
    }
