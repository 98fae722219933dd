-- ===== src/Row.antt =====
-- oplog.go: what the rows of the operation and the login log share. The request, as the two loggers
-- see it after the handlers, is the record Logged; open4go's model and its trace id are values of it.
pub mod Operation
pub mod Login
pub mod Meta
pub mod Binding
pub mod Save
pub mod Bounds
mod Tests
use middle.Prelude.{
  ℕ, ◌+◌, ◌-◌, ◌*◌, ◌^◌, Bool, true, false, ◌&&◌, ◌||◌, not, List, [], ◌∷◌, ◌++◌, Option, none,
  some, leb, ltb, eqb, if◌then◌else◌,
}
use middle.Text.{Text, runes, is_empty, ◌==◌, trim_space, to_lower, has_suffix}
use middle.Text.ParseInt.{parse_int}
use middle.Json.{Json, str}
use middle.Prelude.Int.{ℤ, pos}
use middle.Usage.Sizes.{Any}
use middle.Http.{Context, Values}
use middle.User.{LoginInfo}
use middle.Oplog.{first_non_empty}
use middle.BodyFields.{stringify, Body}
use middle.Body.{truncate_runes, short_id}
use middle.ClientIp.{Visit}
use middle.Client.{ClientRequest}

-- A parameter of the route.
pub record Param : Type 0 where
  pub key : Text
  pub value : Text

-- `get`, `value` and `request_value` are `c.Get`, `c.Value` and the values of the request's context,
-- for keys that are strings; `usage_bytes` is `c.Get("UsageBytes")`, which may be a number; `query` is
-- `c.Query`.
pub record Logged : Type 0 where
  pub http : Context
  pub params : List Param
  pub query : Text → Text
  pub get : Text → Option Json
  pub value : Text → Option Json
  pub request_value : Text → Option Json
  pub target_id_header : Text
  pub status : ℕ
  pub user_agent : Text
  pub device_id : Text
  pub request_id_header : Text
  pub trace_id_header : Text
  pub trace_id : Text
  pub client : ClientRequest
  pub usage_bytes : Option Any
  pub content_length : ℤ
  pub latency_ms : ℕ
  pub visit : Visit

-- The first of two texts that is not empty.
abbrev pub or_text : Text → Text → Text
or_text a b = if is_empty a then b else a

abbrev pub got : Option Json → Text
got (some v) = stringify v
got none = []

-- `s, ok := v.(string)`, trimmed
abbrev pub string_of : Option Json → Text
string_of (some (str s)) = trim_space s
string_of _ = []

unfoldable pub context_string : Logged → List Text → Text
context_string c [] = []
context_string c (key ∷ keys) =
    let later = context_string c keys in
    or_text (got (c.get key))
      (or_text (string_of (c.value key)) (or_text (string_of (c.request_value key)) later))

abbrev pub is_id_param : Text → Bool
is_id_param key =
    key == runes "id"
    || key == runes "_id"
    || has_suffix key (runes "_id")
    || has_suffix key (runes "id")

unfoldable pub param_suffix_id : List Param → Text
param_suffix_id [] = []
param_suffix_id (p ∷ ps) =
    if not (is_empty p.value) && is_id_param (to_lower p.key) then p.value else param_suffix_id ps

-- `c.Param(key)`
unfoldable pub param : Text → List Param → Text
param key [] = []
param key (p ∷ ps) = if p.key == key then p.value else param key ps

unfoldable pub resolve_target : Logged → Body → Text × Text
resolve_target c body = (
  first_non_empty (
      param (runes "_id") c.params
      ∷ param (runes "id") c.params
      ∷ c.target_id_header
      ∷ context_string c (runes "TargetId" ∷ runes "TargetID" ∷ [])
      ∷ param_suffix_id c.params
      ∷ body.id
      ∷ c.query (runes "_id")
      ∷ c.query (runes "id")
      ∷ []),
  first_non_empty (context_string c (runes "TargetName" ∷ []) ∷ body.name ∷ body.phone ∷ []),
)

-- A "RequestID" that is a string is taken, even if it is empty.
abbrev pub request_id : Option Json → Text → Text
request_id (some (str s)) later = s
request_id _ later = later

unfoldable pub request_trace_id : Logged → Text
request_trace_id c =
    if not (is_empty c.trace_id)
    then c.trace_id
    else request_id (c.get (runes "RequestID"))
        (first_non_empty (c.request_id_header ∷ c.trace_id_header ∷ []))

abbrev pub level_of : Option ℤ → ℕ
level_of (some (pos n)) = n
level_of _ = 0

-- A negative number is 0, like what is no number.
unfoldable pub parse_access_level : Text → ℕ
parse_access_level level = level_of (parse_int (trim_space level))

abbrev pub when_some : Text → Option Text → Option Text
when_some v old = if is_empty v then old else some v

unfoldable pub with_log_identity : Values → LoginInfo → Text → Values
with_log_identity ctx l merchant_id = record ctx {
  account = when_some l.account_id ctx.account;
  merchant = when_some merchant_id ctx.merchant;
  namespace = when_some l.namespace ctx.namespace;
  operator = when_some (first_non_empty (l.user_id ∷ l.account_id ∷ [])) ctx.operator;
}

-- `model.MetaModel`, by the fields that the program writes; `status` says that the call succeeded.
pub record MetaModel : Type 0 where
  pub access_level : ℕ
  pub status : Bool
  pub merchant_id : Text
  pub account_id : Text
  pub namespace : Text
  pub founder : Text
  pub updater : Text
  pub created_at : Text
  pub updated_at : Text
  pub created_time : ℕ
  pub updated_time : ℕ

-- The time now, in seconds and as rtime prints it.
pub record Now : Type 0 where
  pub seconds : ℕ
  pub printed : Text

abbrev pub stamped : Now → MetaModel → MetaModel
stamped now meta =
    if is_empty meta.created_at
    then record meta {
      created_at = now.printed;
      updated_at = now.printed;
      created_time = now.seconds;
      updated_time = now.seconds;
    }
    else meta

-- What a row knows of itself.
pub record Known : Type 0 where
  pub access_level : ℕ
  pub success : Bool
  pub merchant_id : Text
  pub account_id : Text
  pub namespace : Text
  pub operator : Text

abbrev pub filled : MetaModel → Known → MetaModel
filled meta k = record meta {
  access_level = if eqb k.access_level 0 then meta.access_level else k.access_level;
  status = k.success;
  merchant_id = or_text meta.merchant_id k.merchant_id;
  account_id = or_text meta.account_id k.account_id;
  namespace = or_text meta.namespace k.namespace;
  founder = or_text meta.founder k.operator;
  updater = or_text meta.updater k.operator;
}

unfoldable pub complete_meta : Now → MetaModel → Known → MetaModel
complete_meta now meta k = stamped now (filled meta k)
