-- ===== src/Usage.antt =====
-- usage.go: what a logged operation changes in a tenant's occupancy, and its event queue.
pub mod Laws
pub mod Sizes
mod Tests
use middle.Prelude.{
  ℕ, Bool, true, false, ◌&&◌, ◌||◌, not, List, [], ◌∷◌, Option, none, some, leb, any, if◌then◌else◌,
}
use middle.Prelude.Int.{ℤ, pos, negsuc, is_positive, is_zero, abs_int64}
use middle.Text.{Text, runes, is_empty, ◌==◌, trim_space}
use middle.Queue.{Channel, send}

pub record UsageEvent : Type 0 where
  pub merchant_id : Text
  pub kind : Text
  pub delta : ℤ
  pub bytes : ℤ
  pub path : Text
  pub at : ℤ

abbrev pub kind_image : Text
kind_image = runes "image"

-- `skipUsageMerchant`
unfoldable pub skip_usage_merchant : Text → Bool
skip_usage_merchant id =
    let m = trim_space id in is_empty m || m == runes "*" || m == runes "share" || m == runes "st"

-- The cases of `usageKindOf`; each resource is its own kind.
abbrev pub usage_kinds : List Text
usage_kinds =
    runes "image"
    ∷ runes "product"
    ∷ runes "order"
    ∷ runes "member"
    ∷ runes "store"
    ∷ runes "scm"
    ∷ runes "campaign"
    ∷ runes "device"
    ∷ runes "feedback"
    ∷ runes "client"
    ∷ runes "finance"
    ∷ []

unfoldable pub usage_kind_of : Text → Text
usage_kind_of resource = if any (λ k. k == resource) usage_kinds then resource else []

-- `delta` of an action: `none` for the actions that change nothing.
unfoldable pub delta_of : Text → Option ℤ
delta_of action =
    if action == runes "create"
    then some (pos 1)
    else if action == runes "delete"
    then some (negsuc 0)
    else none

-- `UsageFromOperation`: `none` where it returns false.
unfoldable pub usage_from_operation : Text → Text → ℕ → ℤ → Option UsageEvent
usage_from_operation resource action resp_code content_length =
    let kind = usage_kind_of resource in
    let n = abs_int64 content_length in
    if leb 400 resp_code then none else elim (delta_of action) [
      | none ↦ none
      | some delta ↦
          if is_empty kind
          then none
          else some (record {
            merchant_id = [];
            kind = kind;
            delta = delta;
            bytes = if kind == kind_image && is_positive n then n else pos 0;
            path = [];
            at = pos 0;
          })
    ]

-- `EnqueueUsage`, with the second that `time.Now` gives: the channel after it, and whether the
-- event was taken up.
unfoldable pub enqueue_usage : ℤ → UsageEvent → Channel UsageEvent → Option (Channel UsageEvent)
enqueue_usage now ev ch =
    if is_empty ev.merchant_id || is_empty ev.kind || (is_zero ev.delta && is_zero ev.bytes)
    then none
    else if skip_usage_merchant ev.merchant_id
    then none
    else send (if is_zero ev.at then record ev { at = now } else ev) ch

-- The sizes that `usageBytes` looks at, in order: the one that the handler set, the one of the
-- document before the change, and the length of the body.
unfoldable pub usage_bytes : ℤ → ℤ → ℤ → ℤ
usage_bytes from_context from_before content_length =
    if is_positive from_context
    then from_context
    else if is_positive from_before
    then from_before
    else abs_int64 content_length
