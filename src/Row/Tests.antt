-- ===== src/Row/Tests.antt =====
-- Rows of one request, for libraries that know little.
use middle.Prelude.{Option, true, false, [], ◌∷◌, none, some, ◌≡◌, ◌≢◌, ◌⊎◌, refl, arith}
use middle.Prelude.Int.{pos}
use middle.Text.{Text, runes, trim_space, text_runs}
use middle.Text.ParseInt.{digits, parse_int}
use middle.Json.{str}
use middle.Http.{Context}
use middle.User.{load_from_header}
use middle.Login.{allow_switch, write_into_header, login_runs}
use middle.Queue.{unmade}
use middle.Usage.{UsageEvent, skip_usage_merchant}
use middle.Audit.{Audit}
use middle.Audit.Laws.{IsRecorded}
use middle.Oplog.{first_non_empty, merchant_from_before}
use middle.Oplog.Occupancy.{IsAdded}
use middle.Client.{Clients, init_clients}
use middle.ClientIp.{NetIp}
use middle.Device.{Regexps}
use middle.Uri.{UrlLib}
use middle.Redact.Shown.{Printer}
use middle.Compress.{Codec}
use middle.Row.{with_log_identity, Logged, Now, context_string, param_suffix_id, parse_access_level}
use middle.Row.Operation.{Env, decoded_before, operation_model, build_operation_summary}
use middle.Row.Meta.{known, IsCompleted, operation_model-IsCompleted}
use middle.Row.Save.{row_of, save_operation_log, save_operation_log-IsRecorded}
use middle.Row.Bounds.{IsBounded, operation_model-IsBounded}
use middle.Row.Binding.{operation_model-write_into_header}
use middle.Row.Login.{login_model, login_model-write_into_header}
use middle.Fixtures.{net, config, login, forged, request}

abbrev clients : Clients
clients = init_clients [] []

abbrev one_address : NetIp
one_address = record {
  Addr = Unit {0};
  parse_addr = λ s. some tt;
  string = λ a. runes "203.0.113.9";
  contains = λ p a. false;
  is_loopback = λ a. false;
  is_private = λ a. false;
  is_link_local_unicast = λ a. false;
  is_unspecified = λ a. false;
  parse_string = λ a. refl;
}

abbrev nothing_matches : Regexps
nothing_matches = record {
  ios = λ ua. none;
  android = λ ua. none;
  windows = λ ua. none;
  mac = λ ua. none;
  edge = λ ua. none;
  chrome = λ ua. none;
  firefox = λ ua. none;
  safari = λ ua. none;
  wechat = λ ua. none;
  qq_browser = λ ua. none;
  uc = λ ua. none;
}

abbrev urls : UrlLib
urls = record {
  Rest = Unit {0};
  query = λ s k. none;
  encode = λ q. [];
  request_uri = λ u. u.raw_query;
}

abbrev printer : Printer
printer = record { decode = λ s. none; pretty = λ v. none; compact = λ v. none }

abbrev codec : Codec
codec = record {
  decode = λ s. none;
  marshal = λ v. none;
  decode_envelope = λ s. none;
  marshal_envelope = λ e. none;
}

abbrev or_nil : Option Text → Text
or_nil none = []
or_nil (some v) = v

abbrev env : Env
env = record {
  url_host = λ s. none;
  clients = clients;
  net = one_address;
  locator = none;
  regexps = nothing_matches;
  urls = urls;
  parse_query = λ s. none;
  printer = printer;
  codec = codec;
  truncate = λ s. pos 0;
  init = λ v. record {
    access_level = 0;
    status = false;
    merchant_id = or_nil v.merchant;
    account_id = or_nil v.account;
    namespace = [];
    founder = [];
    updater = [];
    created_at = [];
    updated_at = [];
    created_time = 0;
    updated_time = 0;
  };
}

abbrev seen : Context → Logged
seen c = record {
  http = c;
  params = record { key = runes "member_id"; value = runes "m-1" } ∷ [];
  query = λ k. [];
  get = λ k. none;
  value = λ k. some (str (runes " v "));
  request_value = λ k. none;
  target_id_header = [];
  status = 200;
  user_agent = runes "curl/8";
  device_id = runes "d-1";
  request_id_header = runes "r-1";
  trace_id_header = [];
  trace_id = [];
  client = record {
    client_id = [];
    client_version = [];
    wechat_app_id = [];
    mini_program = false;
    origin = [];
    referer = [];
    host = [];
  };
  usage_bytes = none;
  content_length = pos 0;
  latency_ms = 3;
  visit = record {
    x_real_ip = [];
    x_forwarded_for = [];
    cf_connecting_ip = [];
    client_ip = runes "203.0.113.9";
  };
}

abbrev now : Now
now = record { seconds = 9; printed = runes "09" }

abbrev idle : Audit
idle = record { channel = unmade; drop_total = 0; inserted = [] }

-- A client that forges its tenant, behind the session of a login of tenant-a.
abbrev behind : Context
behind = write_into_header net config (login "tenant-a") true (request "shop.example.com" forged)

levels : (parse_access_level (runes " +12 ") ≡ 12) × (parse_access_level (runes "-3") ≡ 0)
unfolding parse_access_level parse_int digits text_runs
levels = (refl, refl)

id_of_route : param_suffix_id (seen behind).params ≡ runes "m-1"
unfolding param_suffix_id text_runs
id_of_route = refl

value_of_context : context_string (seen behind) (runes "TargetName" ∷ []) ≡ runes "v"
unfolding context_string text_runs
value_of_context = refl

summary_line :
    build_operation_summary (runes "Li") (runes "delete") [] [] (runes " x ") ≡ runes "Li 删除了 资源 x"
unfolding build_operation_summary first_non_empty text_runs
summary_line = refl

save_operation_log-IsRecorded_example :
    let m = operation_model env now (seen behind) none [] in
    let saved = save_operation_log env now true (seen behind) none [] idle unmade in
    IsRecorded true (row_of m) idle saved.0
    × ((saved.1 ≡ unmade)
        ⊎ ((ev : UsageEvent) × IsAdded m.fields.class.resource m.fields.action m.fields.resp_code
              m.fields.merchant_id
              (decoded_before env m.fields.before)
              m.fields.full_path
              ev
            × (saved.1.buffer ≡ ev ∷ [])))
save_operation_log-IsRecorded_example =
    save_operation_log-IsRecorded env now true (seen behind) none [] idle unmade

operation_model-IsBounded_example : IsBounded (operation_model env now (seen behind) none [])
operation_model-IsBounded_example =
    operation_model-IsBounded env [] [] [] now (seen behind) none [] refl

own_merchant_given :
    (allow_switch net config (login "tenant-a") (request "shop.example.com" forged) true ≡ false)
    × (trim_space (runes "tenant-a") ≢ [])
    × (skip_usage_merchant (trim_space (runes "tenant-a")) ≡ false)
unfolding login_runs skip_usage_merchant
own_merchant_given = (refl, λ e. ground arith, refl)

login_model-write_into_header_example :
    (login_model env now (seen behind) []).merchant_id ≡ trim_space (runes "tenant-a")
login_model-write_into_header_example =
    login_model-write_into_header net config (login "tenant-a") (request "shop.example.com" forged)
      env now (seen behind) [] own_merchant_given.0 own_merchant_given.1 own_merchant_given.2 refl

operation_model-IsCompleted_example :
    IsCompleted now
      (env.init (
        with_log_identity behind.values
          (load_from_header behind)
          (operation_model env now (seen behind) none []).fields.merchant_id))
      (known (operation_model env now (seen behind) none []))
      (operation_model env now (seen behind) none []).meta
operation_model-IsCompleted_example = operation_model-IsCompleted env now (seen behind) none []

operation_model-write_into_header_example :
    let f = (operation_model env now (seen behind) none []).fields in
    (f.merchant_id ≡ trim_space (runes "tenant-a"))
    ⊎ ((f.action ≡ runes "delete")
        × (f.merchant_id ≡ merchant_from_before (decoded_before env f.before))
        × (skip_usage_merchant (merchant_from_before (decoded_before env f.before)) ≡ false))
operation_model-write_into_header_example =
    operation_model-write_into_header net config (login "tenant-a")
      (request "shop.example.com" forged) env now (seen behind) none [] own_merchant_given.0
      own_merchant_given.1 own_merchant_given.2 refl
