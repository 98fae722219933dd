-- ===== src/Oplog/Occupancy.antt =====
-- What a logged operation puts into the usage queue.
use middle.Prelude.{ℕ, ◌<◌, false, [], ◌∷◌, ◌++◌, Option, ◌≡◌, ◌⊎◌, inl, inr, ◌∙◌, arith}
use middle.Prelude.Int.{ℤ}
use middle.Text.{Text}
use middle.Json.{Json}
use middle.Queue.{Channel}
use middle.Usage.{UsageEvent, skip_usage_merchant}
use middle.Usage.Laws.{Counts, usage_from_operation_cases, enqueue_usage_cases, stamped}
use middle.Oplog.{merchant_from_before, usage_merchant, enqueue_usage_from_log}

-- The one event that an operation adds: it is for a tenant, counts the operation, and the operation
-- succeeded.
pub record IsAdded (resource action : Text) (code : ℕ) (merchant : Text) (before : Option Json)
    (path : Text) (ev : UsageEvent) : Type 0 where
  pub succeeded : code < 400
  pub counts : Counts action ev.delta
  pub kind : ev.kind ≡ resource
  pub at_path : ev.path ≡ path
  pub of_merchant : (ev.merchant_id ≡ merchant) ⊎ (ev.merchant_id ≡ merchant_from_before before)
  pub tenant : skip_usage_merchant ev.merchant_id ≡ false

stamped_fields :
    (now : ℤ) (ev : UsageEvent)
    → ((stamped now ev).delta ≡ ev.delta)
      × ((stamped now ev).kind ≡ ev.kind)
      × ((stamped now ev).path ≡ ev.path)
      × ((stamped now ev).merchant_id ≡ ev.merchant_id)
stamped_fields now ev = ground arith

usage_merchant_cases :
    (merchant : Text) (before : Option Json)
    → (usage_merchant merchant before ≡ merchant)
      ⊎ (usage_merchant merchant before ≡ merchant_from_before before)
usage_merchant_cases merchant before = ground arith

-- A logged operation leaves the usage queue as it is, or adds one event behind those that wait:
-- then the operation succeeded and was a creation or a deletion, which the event counts as 1 or -1
-- of its resource, for the tenant of the row or of the document before the operation.
pub enqueue_usage_from_log_cases :
    (resource action : Text) (code : ℕ) (bytes now : ℤ) (merchant : Text) (before : Option Json)
    (path : Text) (ch : Channel UsageEvent)
    → (enqueue_usage_from_log resource action code bytes now merchant before path ch ≡ ch)
      ⊎ ((ev : UsageEvent) × IsAdded resource action code merchant before path ev
          × ((enqueue_usage_from_log resource action code bytes now merchant before path ch).buffer
              ≡ ch.buffer ++ (ev ∷ [])))
unfolding enqueue_usage_from_log
enqueue_usage_from_log_cases resource action code bytes now merchant before path ch =
    elim (usage_from_operation_cases resource action code bytes) [
      | inr (missing, why) ↦ inl (rw missing)
      | inl (ev, there, occupancy) ↦
          let named : UsageEvent = record ev {
            merchant_id = usage_merchant merchant before;
            path = path;
          } in
          elim (enqueue_usage_cases now named ch) [
            | inl (dropped, why) ↦ inl (rw (there, dropped))
            | inr (ch', taken, buffer, room, tenant, kind, moves) ↦
                let (d, k, p, m) = stamped_fields now named in
                inr (
                  stamped now named,
                  record {
                    succeeded = occupancy.succeeded;
                    counts = rw d occupancy.counts;
                    kind = k ∙ occupancy.kind;
                    at_path = p;
                    of_merchant = rw m (usage_merchant_cases merchant before);
                    tenant = rw m tenant;
                  },
                  rw (there, taken) buffer,
                )
          ]
    ]
