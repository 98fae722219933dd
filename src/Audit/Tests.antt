-- ===== src/Audit/Tests.antt =====
-- Two rows on a channel that was not made, and the theorem at one of them.
use middle.Prelude.{true, [], ◌∷◌, ◌≡◌, refl}
use middle.Text.{runes, text_runs}
use middle.Queue.{unmade, send}
use middle.Audit.{
  Row, Audit, audit_async_ready, enqueue_audit, is_critical_audit, insert_operation_sync,
  record_operation,
}
use middle.Audit.Laws.{IsRecorded, record_operation-IsRecorded}

abbrev row : Row
row = record {
  merchant_id = runes "m1";
  account_id = runes "a1";
  resource = runes "product";
  action = runes "update";
  before = [];
  after = [];
  summary = [];
}

abbrev idle : Audit
idle = record { channel = unmade; drop_total = 0; inserted = [] }

stored_at_once : record_operation true row idle ≡ record idle { inserted = row ∷ [] }
unfolding record_operation enqueue_audit insert_operation_sync audit_async_ready send
stored_at_once = refl

deletion_is_critical : is_critical_audit (runes "product") (runes "Delete") ≡ true
unfolding is_critical_audit text_runs
deletion_is_critical = refl

record_operation-IsRecorded_instance : IsRecorded true row idle (record_operation true row idle)
record_operation-IsRecorded_instance = record_operation-IsRecorded true row idle
