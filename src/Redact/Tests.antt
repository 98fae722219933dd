-- ===== src/Redact/Tests.antt =====
-- A body of oplog_test.go, and the theorems on redaction at it.
use middle.Prelude.{◌≡◌, refl}
use middle.Text.{runes, text_runs}
use middle.Json.{str, num, obj, arr, item, nil, field, end, Fields}
use middle.Json.Lookup.{Deep}
use middle.Redact.{is_sensitive, masked, redact_value}
use middle.Redact.Clean.{IsMasked, redact_value-IsMasked}

abbrev body : Fields
body = field (runes "name") (str (runes "demo")) (
    field (runes "PassWord") (str (runes "secret1"))
      (field (runes "list") (arr (item (obj (field (runes "jwt") (num (runes "1")) end)) nil)) end))

abbrev redacted : Fields
redacted = field (runes "name") (str (runes "demo")) (
    field (runes "PassWord") masked
      (field (runes "list") (arr (item (obj (field (runes "jwt") masked end)) nil)) end))

redact_body : redact_value (obj body) ≡ obj redacted
unfolding redact_value is_sensitive text_runs
redact_body = refl

redact_value-IsMasked_instance :
    Deep IsMasked (redact_value (obj body))
    × (redact_value (redact_value (obj body)) ≡ redact_value (obj body))
redact_value-IsMasked_instance = redact_value-IsMasked (obj body)
