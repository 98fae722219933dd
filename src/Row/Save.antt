-- ===== src/Row/Save.antt =====
-- oplog.go: saveOperationLog, the row and the event of a request.
use middle.Prelude.{ℕ, Bool, List, Option, ◌≡◌, ◌⊎◌, ◌++◌, ◌∷◌, []}
use middle.Prelude.Int.{ℤ, pos}
use middle.Queue.{Channel}
use middle.Text.{Text}
use middle.Usage.{UsageEvent}
use middle.Usage.Sizes.{request_bytes}
use middle.Audit.{Row, Audit, record_operation}
use middle.Audit.Laws.{IsRecorded, record_operation-IsRecorded}
use middle.Oplog.{enqueue_usage_from_log}
use middle.Oplog.Occupancy.{IsAdded, enqueue_usage_from_log_cases}
use middle.Uri.{Url}
use middle.Row.{Logged, Now}
use middle.Row.Operation.{Env, Model, decoded_before, operation_model}

-- The fields of the row that the program reads back; the bodies are bytes.
abbrev pub row_of : Model → Row
row_of m = record {
  merchant_id = m.fields.merchant_id;
  account_id = m.fields.account_id;
  resource = m.fields.class.resource;
  action = m.fields.action;
  before = m.before;
  after = m.after;
  summary = m.summary;
}

-- `usageBytes(c, fields.before, c.Request.ContentLength)`
abbrev pub row_bytes : Env → Logged → Text → ℤ
row_bytes env c before =
    request_bytes env.truncate env.printer.decode c.usage_bytes before c.content_length

-- The two queues. `accepts` says whether Mongo takes the row.
unfoldable pub save_operation_log :
    (env : Env)
    → Now
    → Bool
    → Logged
    → Option (Url (env.urls.Rest))
    → List ℕ
    → Audit
    → Channel UsageEvent
    → Audit × Channel UsageEvent
save_operation_log env now accepts c url payload audit usage =
    let m = operation_model env now c url payload in
    (
      record_operation accepts (row_of m) audit,
      enqueue_usage_from_log m.fields.class.resource m.fields.action m.fields.resp_code
          (row_bytes env c m.fields.before) (pos now.seconds) m.fields.merchant_id
          (decoded_before env m.fields.before) m.fields.full_path usage,
    )

-- saveOperationLog puts the row of the request behind the rows that wait, or stores it at once; it
-- is lost only if Mongo refuses it, or if the queue is full and neither its resource nor its action
-- is critical. The usage queue is as it was, or has one event more, which counts the creation or
-- deletion that succeeded, for the merchant of the row or of the document before it.
pub save_operation_log-IsRecorded :
    (env : Env) (now : Now) (accepts : Bool) (c : Logged) (url : Option (Url (env.urls.Rest)))
    (payload : List ℕ) (audit : Audit) (usage : Channel UsageEvent)
    → let m = operation_model env now c url payload in
      let saved = save_operation_log env now accepts c url payload audit usage in
      IsRecorded accepts (row_of m) audit saved.0
      × ((saved.1 ≡ usage)
          ⊎ ((ev : UsageEvent) × IsAdded m.fields.class.resource m.fields.action m.fields.resp_code
                m.fields.merchant_id
                (decoded_before env m.fields.before)
                m.fields.full_path
                ev
              × (saved.1.buffer ≡ usage.buffer ++ (ev ∷ []))))
unfolding save_operation_log
save_operation_log-IsRecorded env now accepts c url payload audit usage =
    let m = operation_model env now c url payload in
    (
      record_operation-IsRecorded accepts (row_of m) audit,
      enqueue_usage_from_log_cases m.fields.class.resource m.fields.action m.fields.resp_code
          (row_bytes env c m.fields.before) (pos now.seconds) m.fields.merchant_id
          (decoded_before env m.fields.before) m.fields.full_path usage,
    )
