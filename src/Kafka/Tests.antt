-- ===== src/Kafka/Tests.antt =====
-- Three rows of two merchants; the second cannot be encoded.
use middle.Prelude.{ℕ, List, [], ◌∷◌, Option, none, some, ◌≡◌, if◌then◌else◌}
use middle.Text.{Text, runes, ◌==◌}
use middle.Audit.{Row}
use middle.Kafka.{KafkaPublisher, audit_key, publish_all}
use middle.Kafka.Keys.{with_key, of_key, with_key-publish_all}

abbrev row : Text → Text → Row
row merchant account = record {
  merchant_id = merchant;
  account_id = account;
  resource = [];
  action = [];
  before = [];
  after = [];
  summary = [];
}

abbrev publisher : KafkaPublisher
publisher = record {
  brokers = runes "localhost:19092" ∷ [];
  topic = runes "audit.operation";
  writer = none;
}

abbrev marshal : Row → Option (List ℕ)
marshal m = if m.account_id == runes "bad" then none else some m.account_id

abbrev rows : List Row
rows =
    row (runes "m1") (runes "a1")
    ∷ row (runes "m1") (runes "bad")
    ∷ row [] (runes "m1")
    ∷ row (runes "m2") (runes "a2")
    ∷ []

with_key-publish_all_instance :
    with_key (runes "m1") (publish_all marshal audit_key publisher rows)
    ≡ publish_all marshal audit_key publisher (of_key audit_key (runes "m1") rows)
with_key-publish_all_instance = with_key-publish_all marshal audit_key (runes "m1") publisher rows
