-- ===== src/Audit.antt =====
-- audit.go: the queue of audit rows, and which rows must not be lost.
pub mod Laws
pub mod Settings
mod Tests
use middle.Prelude.{
  ℕ, ◌+◌, Bool, true, false, ◌&&◌, ◌||◌, not, List, [], ◌∷◌, Option, none, some, any, if◌then◌else◌,
}
use middle.Text.{Text, runes, ◌==◌, trim_space, to_lower, equal_fold}
use middle.Queue.{Channel, send}

-- `operation.Model`, by the fields that the program reads back.
pub record Row : Type 0 where
  pub merchant_id : Text
  pub account_id : Text
  pub resource : Text
  pub action : Text
  pub before : Text
  pub after : Text
  pub summary : Text

-- The channel, the counter of dropped rows, and what was inserted synchronously.
pub record Audit : Type 0 where
  pub channel : Channel Row
  pub drop_total : ℕ
  pub inserted : List Row

unfoldable pub audit_async_ready : Audit → Bool
audit_async_ready a = a.channel.made

-- The two cases of the `select` in `EnqueueAudit`; a nil channel returns before it, and is not
-- counted.
abbrev pub after_send : Option (Channel Row) → Audit → Audit × Bool
after_send (some ch) a = (record a { channel = ch }, true)
after_send none a =
    if a.channel.made then (record a { drop_total = a.drop_total + 1 }, false) else (a, false)

-- `EnqueueAudit`: the state after it and its result.
unfoldable pub enqueue_audit : Row → Audit → Audit × Bool
enqueue_audit m a = after_send (send m a.channel) a

abbrev pub critical_resources : List Text
critical_resources =
    runes "member"
    ∷ runes "member_level"
    ∷ runes "admin_account"
    ∷ runes "role"
    ∷ runes "tenant"
    ∷ runes "pay"
    ∷ runes "billing"
    ∷ runes "password"
    ∷ runes "plan"
    ∷ runes "partner"
    ∷ []

unfoldable pub is_critical_audit : Text → Text → Bool
is_critical_audit resource action =
    if equal_fold action (runes "delete")
    then true
    else any (λ r. r == to_lower (trim_space resource)) critical_resources

-- `insertOperationSync`; the flag says whether Mongo accepts the row.
unfoldable pub insert_operation_sync : Bool → Row → Audit → Audit
insert_operation_sync accepts m a = if accepts then record a { inserted = m ∷ a.inserted } else a

-- oplog.go, the end of `saveOperationLog`, after `EnqueueAudit` returned.
abbrev pub after_enqueue : Bool → Row → Audit × Bool → Audit
after_enqueue accepts m (a, enqueued) =
    if not enqueued && (not (audit_async_ready a) || is_critical_audit m.resource m.action)
    then insert_operation_sync accepts m a
    else a

unfoldable pub record_operation : Bool → Row → Audit → Audit
record_operation accepts m a = after_enqueue accepts m (enqueue_audit m a)
