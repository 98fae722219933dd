-- ===== src/Redact.antt =====
-- oplog.go: the redaction of request bodies.
pub mod Clean
pub mod Shown
mod Tests
use middle.Prelude.{Bool, true, false, List, [], ◌∷◌, any, if◌then◌else◌}
use middle.Text.{Text, runes, ◌==◌, to_lower}
use middle.Json.{Json, null, bool, num, str, arr, obj, Items, nil, item, Fields, end, field}

abbrev pub sensitive_body_keys : List Text
sensitive_body_keys =
    runes "password"
    ∷ runes "passwd"
    ∷ runes "old_password"
    ∷ runes "new_password"
    ∷ runes "oldpassword"
    ∷ runes "newpassword"
    ∷ runes "token"
    ∷ runes "access_token"
    ∷ runes "refresh_token"
    ∷ runes "secret"
    ∷ runes "session_key"
    ∷ runes "jwt"
    ∷ runes "otp"
    ∷ runes "otp_secret"
    ∷ runes "opt_secret"
    ∷ runes "sms_code"
    ∷ runes "authorization"
    ∷ runes "cookie"
    ∷ []

unfoldable pub is_sensitive : Text → Bool
is_sensitive k = any (λ s. s == to_lower k) sensitive_body_keys

abbrev pub masked : Json
masked = str (runes "***")

unfoldable mutual
  pub redact_value : Json → Json
  redact_value (obj fs) = obj (redact_fields fs)
  redact_value (arr xs) = arr (redact_items xs)
  redact_value null = null
  redact_value (bool b) = bool b
  redact_value (num n) = num n
  redact_value (str s) = str s

  pub redact_items : Items → Items
  redact_items nil = nil
  redact_items (item x xs) = item (redact_value x) (redact_items xs)

  pub redact_fields : Fields → Fields
  redact_fields end = end
  redact_fields (field k v rest) =
      field k (if is_sensitive k then masked else redact_value v) (redact_fields rest)
