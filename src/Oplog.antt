-- ===== src/Oplog.antt =====
-- oplog.go: what the audit log takes from a request. Headers, path and context values arrive as
-- the texts that gin gives for them.
pub mod Merchants
pub mod Occupancy
mod Tests
use middle.Prelude.{
  ℕ, ◌+◌, ◌*◌, ◌-◌, ◌<◌, ◌≤◌, Bool, true, false, ◌&&◌, ◌||◌, not, List, [], ◌∷◌, ◌++◌, Option, none,
  some, any, leb, eqb, ltb, length, take, if◌then◌else◌,
}
use middle.Text.{
  Text, runes, is_empty, ◌==◌, trim_space, to_lower, to_upper, contains, has_suffix, equal_fold,
}
use middle.Json.{
  Json, null, bool, num, str, arr, obj, Items, nil, item, Fields, end, field, find, as_object,
  as_string,
}
use middle.Http.{Context, get, x_tenant_id, x_merchant_id, merchant_id}
use middle.User.{LoginInfo, load_from_header}
use middle.Prelude.Int.{ℤ}
use middle.Queue.{Channel}
use middle.Usage.{skip_usage_merchant, UsageEvent, usage_from_operation, enqueue_usage}

abbrev pub skip_operate_path_parts : List Text
skip_operate_path_parts =
    runes "/actions"
    ∷ runes "/logs"
    ∷ runes "/heartbeat"
    ∷ runes "/metrics"
    ∷ runes "/healthz"
    ∷ runes "/readyz"
    ∷ runes "/health"
    ∷ runes "/ping"
    ∷ []

unfoldable pub skip_operate_path : Text → Text → Bool
skip_operate_path full_path raw_path =
    any (λ part. contains (to_lower (full_path ++ (runes " " ++ raw_path))) part)
      skip_operate_path_parts

unfoldable pub action_from_method : Text → Text
action_from_method method =
    let m = to_upper method in
    if m == runes "POST"
    then runes "create"
    else if m == runes "PUT" || m == runes "PATCH"
    then runes "update"
    else if m == runes "DELETE"
    then runes "delete"
    else to_lower method

unfoldable pub action_from_request : Text → Text → Text → Text
action_from_request method path raw_query =
    let p = to_lower (path ++ (runes " " ++ raw_query)) in
    if contains p (runes "/send")
    then runes "notify"
    else if contains p (runes "/transfer") || contains p (runes "ts=")
    then runes "transfer"
    else if contains p (runes "/reset")
    then runes "reset"
    else if contains p (runes "/enable") || contains p (runes "/disable")
    then runes "update"
    else action_from_method method

-- `firstNonEmpty`
unfoldable pub first_non_empty : List Text → Text
first_non_empty [] = []
first_non_empty (v ∷ values) =
    if is_empty (trim_space v) then first_non_empty values else trim_space v

-- The string at a key, trimmed, unless it is missing, no string, empty or a shared merchant.
abbrev pub named_merchant : Option Json → Option Text
named_merchant (some (str s)) =
    if is_empty (trim_space s) || skip_usage_merchant (trim_space s)
    then none
    else some (trim_space s)
named_merchant _ = none

-- The loop of `lookupMerchantID` over its two keys.
abbrev pub first_named : Option Text → Option Text → Option Text
first_named (some m) other = some m
first_named none other = other

unfoldable pub own_merchant : Fields → Option Text
own_merchant fs =
    first_named (named_merchant (find (runes "merchant_id") fs))
      (named_merchant (find (runes "MerchantID") fs))

abbrev pub or_else : Option Text → Text → Text
or_else (some m) other = m
or_else none other = other

-- `lookupMerchantID` looks into "meta" for as long as there is one: `in_meta` is what it finds
-- there.
unfoldable mutual
  pub in_meta : Fields → Text
  in_meta end = []
  in_meta (field k v rest) =
      let later = in_meta rest in if k == runes "meta" then in_value v else later

  pub in_value : Json → Text
  in_value (obj fs) = or_else (own_merchant fs) (in_meta fs)
  in_value (arr xs) = []
  in_value null = []
  in_value (bool b) = []
  in_value (num n) = []
  in_value (str s) = []

unfoldable pub lookup_merchant_id : Fields → Text
lookup_merchant_id fs = or_else (own_merchant fs) (in_meta fs)

-- `doc["_"].(map[string]any)`
abbrev pub inner_merchant : Option Json → Text
inner_merchant (some (obj fs)) = lookup_merchant_id fs
inner_merchant _ = []

-- `merchantFromBefore` on the decoded document: the merchant of the document or of its "_".
unfoldable pub merchant_from_before : Option Json → Text
merchant_from_before (some (obj doc)) =
    if is_empty (lookup_merchant_id doc)
    then inner_merchant (find (runes "_") doc)
    else lookup_merchant_id doc
merchant_from_before _ = []

-- The merchant of a row: the first candidate, unless it is shared or the operation deletes and the
-- document before the operation names one.
unfoldable pub operation_merchant : List Text → Text → Option Json → Text
operation_merchant candidates action before =
    let merchant = first_non_empty candidates in
    let mid = merchant_from_before before in
    if (skip_usage_merchant merchant || action == runes "delete") && not (is_empty mid)
    then mid
    else merchant

-- The candidates for the merchant of a row; `body_merchant` is the one that the body names.
abbrev pub row_candidates : Context → LoginInfo → Text → List Text
row_candidates c l body_merchant =
    l.merchant_id
    ∷ get c.headers x_tenant_id
    ∷ get c.headers x_merchant_id
    ∷ get c.headers merchant_id
    ∷ body_merchant
    ∷ l.namespace
    ∷ []

-- The merchant of the row that is saved for a request, with the action and the document before it.
unfoldable pub row_merchant : Context → Text → Text → Option Json → Text
row_merchant c body_merchant action before =
    operation_merchant (row_candidates c (load_from_header c) body_merchant) action before

-- The merchant of a usage event: that of the row, unless it is shared and the document before the
-- operation names one.
abbrev pub usage_merchant : Text → Option Json → Text
usage_merchant merchant before =
    let mid = merchant_from_before before in
    if skip_usage_merchant merchant && not (is_empty mid) then mid else merchant

-- The channel after a send, or as it was.
abbrev pub or_same : Option (Channel UsageEvent) → Channel UsageEvent → Channel UsageEvent
or_same (some sent) ch = sent
or_same none ch = ch

-- `enqueueUsageFromLog` on the result of `UsageFromOperation`: the channel after it.
abbrev pub enqueue_event :
    Option UsageEvent → ℤ → Text → Option Json → Text → Channel UsageEvent → Channel UsageEvent
enqueue_event none now merchant before path ch = ch
enqueue_event (some ev) now merchant before path ch =
    let named : UsageEvent = record ev {
      merchant_id = usage_merchant merchant before;
      path = path;
    } in
    or_same (enqueue_usage now named ch) ch

unfoldable pub enqueue_usage_from_log :
    Text → Text → ℕ → ℤ → ℤ → Text → Option Json → Text → Channel UsageEvent → Channel UsageEvent
enqueue_usage_from_log resource action resp_code bytes now merchant before path ch =
    enqueue_event (usage_from_operation resource action resp_code bytes) now merchant before path ch
