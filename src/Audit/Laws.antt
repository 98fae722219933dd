-- ===== src/Audit/Laws.antt =====
-- What becomes of an audit row.
use middle.Prelude.{
  ◌+◌, ◌≤◌, Bool, true, false, [], ◌∷◌, ◌++◌, Option, none, some, length, ◌≡◌, inl, inr, refl, ap,
  arith, Bool-cases,
}
use middle.Queue.{Channel, capacity, send}
use middle.Queue.Order.{send-eq-some}
use middle.Audit.{
  Row, Audit, audit_async_ready, after_send, enqueue_audit, after_enqueue, is_critical_audit,
  insert_operation_sync, record_operation,
}

-- Where a row is after it was recorded. `accepts` says whether Mongo takes an inserted row.
pub data IsRecorded (accepts : Bool) (m : Row) (a a' : Audit) : Type 0 where
  queued :
      a'.channel.buffer ≡ a.channel.buffer ++ (m ∷ [])
      → a'.inserted ≡ a.inserted
      → a'.drop_total ≡ a.drop_total
      → IsRecorded accepts m a a'
  stored :
      a'.channel ≡ a.channel
      → accepts ≡ true
      → a'.inserted ≡ m ∷ a.inserted
      → IsRecorded accepts m a a'
  refused :
      a'.channel ≡ a.channel
      → accepts ≡ false
      → a'.inserted ≡ a.inserted
      → IsRecorded accepts m a a'
  dropped :
      a.channel.made ≡ true
      → capacity ≤ length a.channel.buffer
      → is_critical_audit m.resource m.action ≡ false
      → a' ≡ record a { drop_total = a.drop_total + 1 }
      → IsRecorded accepts m a a'

send_none_lem :
    (m : Row) (ch : Channel Row) → send m ch ≡ none → ch.made ≡ true → capacity ≤ length ch.buffer
unfolding send
send_none_lem m ch h on = ground arith

insert_operation_sync-IsRecorded :
    (accepts : Bool) (m : Row) (a a' : Audit)
    → a'.channel ≡ a.channel
    → a'.inserted ≡ a.inserted
    → IsRecorded accepts m a (insert_operation_sync accepts m a')
unfolding insert_operation_sync
insert_operation_sync-IsRecorded true m a a' same e = stored same refl (ap (λ l. m ∷ l) e)
insert_operation_sync-IsRecorded false m a a' same e = refused same refl e

after_send-IsRecorded :
    (accepts : Bool) (m : Row) (a : Audit) (o : Option (Channel Row))
    → send m a.channel ≡ o
    → IsRecorded accepts m a (after_enqueue accepts m (after_send o a))
unfolding audit_async_ready
after_send-IsRecorded accepts m a (some ch) e =
    let (same, made, room) = send-eq-some m a.channel ch e in
    queued (ap (λ c. c.buffer) same) refl refl
after_send-IsRecorded accepts m a none e = elim (Bool-cases a.channel.made) [
  | inr off ↦ simp off (insert_operation_sync-IsRecorded accepts m a a refl refl)
  | inl on ↦ elim (Bool-cases (is_critical_audit m.resource m.action)) [
    | inl critical ↦ simp (on, critical) (insert_operation_sync-IsRecorded accepts m a _ refl refl)
    | inr other ↦ simp (on, other) (dropped on (send_none_lem m a.channel e on) other refl)
  ]
]

-- A row is queued behind those that wait, or inserted at once, unless Mongo refuses it; it is
-- dropped, and the drop counted, only if the queue is full and the row is not critical.
pub record_operation-IsRecorded :
    (accepts : Bool) (m : Row) (a : Audit) → IsRecorded accepts m a (record_operation accepts m a)
unfolding record_operation enqueue_audit
record_operation-IsRecorded accepts m a = after_send-IsRecorded accepts m a (send m a.channel) refl
