-- ===== src/Kafka.antt =====
-- audit_kafka.go and usage_kafka.go: what the two publishers write to Kafka. json.Marshal is an
-- argument, which gives bytes.
pub mod Keys
mod Tests
use middle.Prelude.{ℕ, Bool, true, false, List, [], ◌∷◌, ◌++◌, Option, none, some, if◌then◌else◌}
use middle.Text.{Text, is_empty}
use middle.Text.Utf8.{utf8}
use middle.Usage.{UsageEvent}
use middle.Audit.{Row}

-- `kafka.Writer`, by what the program sets: it waits for one acknowledgement and hashes keys.
pub record Writer : Type 0 where
  pub addr : List Text
  pub topic : Text
  pub async : Bool
  pub allow_auto_topic_creation : Bool
  pub batch_timeout_ms : ℕ

-- `kafkaAuditPublisher` and `kafkaUsagePublisher`
pub record KafkaPublisher : Type 0 where
  pub brokers : List Text
  pub topic : Text
  pub writer : Option Writer

pub record Message : Type 0 where
  pub key : List ℕ
  pub value : List ℕ

abbrev pub new_writer : KafkaPublisher → Writer
new_writer p = record {
  addr = p.brokers;
  topic = p.topic;
  async = false;
  allow_auto_topic_creation = true;
  batch_timeout_ms = 10;
}

abbrev pub or_new : Option Writer → KafkaPublisher → Writer
or_new (some w) p = w
or_new none p = new_writer p

-- `getWriter`: the publisher after it, and its writer.
unfoldable pub get_writer : KafkaPublisher → KafkaPublisher × Writer
get_writer p = (record p { writer = some (or_new p.writer p) }, or_new p.writer p)

-- A row with no merchant goes by its account.
abbrev pub audit_key : Row → Text
audit_key m = if is_empty m.merchant_id then m.account_id else m.merchant_id

abbrev pub usage_key : UsageEvent → Text
usage_key ev = ev.merchant_id

-- A call of `WriteMessages`.
pub record Written : Type 0 where
  pub writer : Writer
  pub message : Message

module _ {A : Type 0} (marshal : A → Option (List ℕ)) (key : A → Text) where
  abbrev pub publish_body : KafkaPublisher → A → Option (List ℕ) → KafkaPublisher × List Written
  publish_body p m none = (p, [])
  publish_body p m (some body) = (
    (get_writer p).0,
    record { writer = (get_writer p).1; message = record { key = utf8 (key m); value = body } }
        ∷ [],
  )

  -- `Publish`: the publisher after it and what it wrote.
  unfoldable pub publish : KafkaPublisher → A → KafkaPublisher × List Written
  publish p m = publish_body p m (marshal m)

  -- The calls of the loop, one after the other.
  unfoldable pub publish_all : KafkaPublisher → List A → List Written
  publish_all p [] = []
  publish_all p (m ∷ ms) = (publish p m).1 ++ publish_all (publish p m).0 ms
