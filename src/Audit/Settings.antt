-- ===== src/Audit/Settings.antt =====
-- audit.go and usage.go: the settings of the two publishers. viper is the record Settings; the Kafka
-- clients themselves are not looked into.
use middle.Prelude.{
  Bool, true, false, not, List, [], ◌∷◌, Option, none, some, ◌≡◌, ◌↔◌, ◌⊎◌, arith, Bool-cases, inl,
  inr, if◌then◌else◌,
}
use middle.Text.{Text, runes, is_empty, trim_space}
use middle.Queue.{Channel, start}
use middle.Usage.{UsageEvent}
use middle.Audit.{Audit, audit_async_ready}

-- "audit.async" (`none` if it is not set), the brokers and the topics.
pub record Settings : Type 0 where
  pub audit_async : Option Bool
  pub audit_brokers : List Text
  pub usage_brokers : List Text
  pub brokers : List Text
  pub audit_topic : Text
  pub usage_topic : Text

-- What a publisher is made of.
pub record Publisher : Type 0 where
  pub brokers : List Text
  pub topic : Text

abbrev pub default_brokers : List Text
default_brokers = runes "localhost:19092" ∷ []

abbrev pub or_brokers : List Text → List Text → List Text
or_brokers own later = if is_empty own then later else own

abbrev pub or_topic : Text → Text → Text
or_topic topic default = if is_empty (trim_space topic) then default else trim_space topic

unfoldable pub audit_publisher : Settings → Publisher
audit_publisher s = record {
  brokers = or_brokers s.audit_brokers (or_brokers s.brokers default_brokers);
  topic = or_topic s.audit_topic (runes "audit.operation");
}

unfoldable pub usage_publisher : Settings → Publisher
usage_publisher s = record {
  brokers = or_brokers s.usage_brokers (or_brokers s.brokers default_brokers);
  topic = or_topic s.usage_topic (runes "tenant.usage");
}

unfoldable pub init_usage_from_viper : Channel UsageEvent → Channel UsageEvent
init_usage_from_viper ch = start true ch

abbrev pub async_disabled : Option Bool → Bool
async_disabled none = false
async_disabled (some async) = not async

-- `InitAuditFromViper`: the publisher that is started, if one is.
unfoldable pub init_audit_from_viper : Settings → Audit → Audit
init_audit_from_viper s a =
    if async_disabled s.audit_async then a else record a { channel = start true a.channel }

-- Rows go through the queue after the start exactly if they did before, or the settings do not turn
-- that off; the rows that wait stay.
pub audit_async_ready-init_audit_from_viper :
    (s : Settings) (a : Audit)
    → ((audit_async_ready (init_audit_from_viper s a) ≡ true)
        ↔ ((audit_async_ready a ≡ true) ⊎ (async_disabled s.audit_async ≡ false)))
      × ((init_audit_from_viper s a).channel.buffer ≡ a.channel.buffer)
unfolding audit_async_ready init_audit_from_viper start
audit_async_ready-init_audit_from_viper s a = elim (Bool-cases (async_disabled s.audit_async)) [
  | inl off ↦ rw off (ground arith)
  | inr on ↦ elim (Bool-cases a.channel.made) [
    | inl made ↦ rw (on, made) (ground (arith, made))
    | inr fresh ↦ rw (on, fresh) (ground (arith, fresh))
  ]
]
