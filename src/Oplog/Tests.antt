-- ===== src/Oplog/Tests.antt =====
-- Requests and documents of oplog_test.go, and the theorems at them.
use middle.Prelude.{ℕ, true, false, List, [], ◌∷◌, Option, some, ◌≡◌, ◌≢◌, ◌⊎◌, refl}
use middle.Text.{runes, text_runs}
use middle.Json.{Json, str, obj, field, end, find}
use middle.Prelude.{◌++◌}
use middle.Prelude.Int.{pos, negsuc}
use middle.Queue.{Channel, send}
use middle.Oplog.{enqueue_usage_from_log}
use middle.Oplog.Occupancy.{IsAdded, enqueue_usage_from_log_cases}
use middle.Usage.{
  skip_usage_merchant, UsageEvent, usage_from_operation, usage_kind_of, delta_of, enqueue_usage,
}
use middle.Oplog.{
  action_from_method, action_from_request, first_non_empty, own_merchant, in_meta,
  lookup_merchant_id, merchant_from_before, operation_merchant,
}
use middle.Oplog.Merchants.{operation_merchant_cases}

-- A document whose own merchant is shared, with the tenant in "meta".
abbrev document : Option Json
document = some (
    obj (
      field (runes "merchant_id") (str (runes "share"))
        (field (runes "meta") (obj (field (runes "MerchantID") (str (runes " m7 ")) end)) end)))

document_tenant : merchant_from_before document ≡ runes "m7"
unfolding merchant_from_before lookup_merchant_id in_meta own_merchant find skip_usage_merchant
    text_runs
document_tenant = refl

abbrev candidates : List (List ℕ)
candidates = runes "" ∷ runes "m1" ∷ []

operation_merchant_cases_instance :
    ((operation_merchant candidates (runes "delete") document ≡ merchant_from_before document)
      × (skip_usage_merchant (merchant_from_before document) ≡ false)
      × ((runes "delete" ≡ runes "delete")
          ⊎ (skip_usage_merchant (first_non_empty candidates) ≡ true)))
    ⊎ ((operation_merchant candidates (runes "delete") document ≡ first_non_empty candidates)
        × ((merchant_from_before document ≡ [])
            ⊎ ((runes "delete" ≢ runes "delete")
                × (skip_usage_merchant (first_non_empty candidates) ≡ false))))
operation_merchant_cases_instance = operation_merchant_cases candidates (runes "delete") document

notifies : action_from_request (runes "POST") (runes "/v1/sms/Send") [] ≡ runes "notify"
unfolding action_from_request action_from_method text_runs
notifies = refl

abbrev open_channel : Channel UsageEvent
open_channel = record { made = true; buffer = []; publisher = true }

deletion_counted :
    (enqueue_usage_from_log
      (runes "product")
      (runes "delete")
      200
      (pos 0)
      (pos 9)
      (runes "*")
      document
      []
      open_channel).buffer
    ≡ record {
      merchant_id = runes "m7";
      kind = runes "product";
      delta = negsuc 0;
      bytes = pos 0;
      path = [];
      at = pos 9;
    }
      ∷ []
unfolding enqueue_usage_from_log usage_from_operation usage_kind_of delta_of enqueue_usage send
    merchant_from_before lookup_merchant_id in_meta own_merchant find skip_usage_merchant text_runs
deletion_counted = refl

enqueue_usage_from_log_cases_instance :
    (enqueue_usage_from_log
        (runes "product")
        (runes "delete")
        200
        (pos 0)
        (pos 9)
        (runes "*")
        document
        []
        open_channel
      ≡ open_channel)
    ⊎ ((ev : UsageEvent) × IsAdded (runes "product") (runes "delete") 200 (runes "*") document [] ev
        × ((enqueue_usage_from_log
              (runes "product")
              (runes "delete")
              200
              (pos 0)
              (pos 9)
              (runes "*")
              document
              []
              open_channel).buffer
            ≡ [] ++ (ev ∷ [])))
enqueue_usage_from_log_cases_instance =
    enqueue_usage_from_log_cases (runes "product") (runes "delete") 200 (pos 0) (pos 9) (runes "*")
      document [] open_channel
