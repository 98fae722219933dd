-- ===== src/Usage/Tests.antt =====
-- Operations of usage_test.go, and the theorems at them.
use middle.Prelude.{
  true, false, [], ◌∷◌, ◌++◌, some, none, length, ◌^◌, ◌-◌, ◌<◌, ◌≡◌, ◌≢◌, ◌⊎◌, refl,
}
use middle.Prelude.Int.{pos, negsuc, is_negative, is_zero}
use middle.Text.{runes, text_runs}
use middle.Queue.{Channel, capacity}
use middle.Usage.{
  UsageEvent, kind_image, skip_usage_merchant, usage_kind_of, delta_of, usage_from_operation,
  enqueue_usage, usage_bytes,
}
use middle.Usage.Laws.{
  IsOccupancy, IsIgnored, usage_from_operation_cases, IsDropped, stamped, enqueue_usage_cases,
}

abbrev upload : UsageEvent
upload = record {
  merchant_id = [];
  kind = kind_image;
  delta = pos 1;
  bytes = pos 100;
  path = [];
  at = pos 0;
}

upload_event : usage_from_operation kind_image (runes "create") 200 (pos 100) ≡ some upload
unfolding usage_from_operation usage_kind_of delta_of text_runs
upload_event = refl

failed_update : usage_from_operation kind_image (runes "create") 500 (pos 100) ≡ none
unfolding usage_from_operation usage_kind_of delta_of text_runs
failed_update = refl

usage_from_operation_cases_instance :
    ((ev : UsageEvent) × (usage_from_operation kind_image (runes "create") 200 (pos 100) ≡ some ev)
      × IsOccupancy kind_image (runes "create") 200 (pos 100) ev)
    ⊎ ((usage_from_operation kind_image (runes "create") 200 (pos 100) ≡ none)
        × IsIgnored kind_image (runes "create") 200)
usage_from_operation_cases_instance =
    usage_from_operation_cases kind_image (runes "create") 200 (pos 100)

abbrev event : UsageEvent
event = record upload { merchant_id = runes "m1" }

abbrev open_channel : Channel UsageEvent
open_channel = record { made = true; buffer = []; publisher = true }

enqueue_usage_cases_instance :
    ((enqueue_usage (pos 9) event open_channel ≡ none) × IsDropped event open_channel)
    ⊎ ((ch' : Channel UsageEvent) × (enqueue_usage (pos 9) event open_channel ≡ some ch')
        × (ch'.buffer ≡ open_channel.buffer ++ (stamped (pos 9) event ∷ []))
        × (length open_channel.buffer < capacity)
        × (skip_usage_merchant event.merchant_id ≡ false)
        × (event.kind ≢ [])
        × ((is_zero event.delta ≡ false) ⊎ (is_zero event.bytes ≡ false)))
enqueue_usage_cases_instance = enqueue_usage_cases (pos 9) event open_channel

least_size : is_negative (usage_bytes (pos 0) (pos 0) (negsuc (2 ^ 63 - 1))) ≡ true
unfolding usage_bytes
least_size = refl
