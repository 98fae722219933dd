-- ===== src/Queue.antt =====
-- The buffered channels of usage.go and audit.go: a queue that producers never wait for, and one
-- loop that takes from it and publishes. Both channels are made once, at the first start with a
-- publisher, and hold 4096 items.
pub mod Order
pub mod Drain
pub mod Fifo
mod Tests
use middle.Prelude.{
  ℕ, Bool, true, false, ◌&&◌, not, List, [], ◌∷◌, ◌++◌, Option, none, some, length, ltb,
  if◌then◌else◌,
}

abbrev pub capacity : ℕ
capacity = 4096

-- The state of a queue: whether its channel is there, whether its publisher is, and what waits.
pub record Channel {ℓ} (A : Type ℓ) : Type ℓ where
  pub made : Bool
  pub publisher : Bool
  pub buffer : List A

-- What can be seen of a queue: an item was taken up, an item was dropped, or `Publish` was called
-- with an item and answered with nil (`true`) or with an error.
pub data Event {ℓ} (A : Type ℓ) : Type ℓ where
  accepted : A → Event A
  refused : A → Event A
  handed : A → Bool → Event A

module _ {ℓ} {A : Type ℓ} where
  abbrev pub unmade : Channel A
  unmade = record { made = false; publisher = false; buffer = [] }

  -- `StartUsagePublisher` and `StartAuditPublisher`; the flag says whether there is a publisher.
  unfoldable pub start : Bool → Channel A → Channel A
  start publisher ch =
      if publisher && not ch.made then record ch { made = true; publisher = true } else ch

  -- `select { case ch <- x: default: }`: `none` if the channel is nil or full.
  unfoldable pub send : A → Channel A → Option (Channel A)
  send x ch =
      if ch.made && ltb (length ch.buffer) capacity
      then some (record ch { buffer = ch.buffer ++ (x ∷ []) })
      else none

  -- One round of the publishing loop, on the items that wait, with the answer of `Publish`. An item
  -- is gone when `Publish` fails, which is logged, and when there is no publisher to call.
  pub receive_from : Bool → Channel A → List A → List (Event A) × Channel A
  receive_from ok ch [] = ([], ch)
  receive_from ok ch (x ∷ rest) =
      (if ch.publisher then handed x ok ∷ [] else [], record ch { buffer = rest })

  unfoldable pub receive : Bool → Channel A → List (Event A) × Channel A
  unfolding receive_from
  receive ok ch = receive_from ok ch ch.buffer
