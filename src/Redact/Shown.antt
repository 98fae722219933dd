-- ===== src/Redact/Shown.antt =====
-- oplog.go: RedactJSON, what the audit log shows of a body. It is a list of bytes, since the last cut
-- may fall inside a rune. encoding/json is the parameter Printer.
pub mod Laws
mod Tests
use middle.Prelude.{
  ℕ, Bool, true, false, List, [], ◌++◌, Option, none, some, length, take, leb, if◌then◌else◌,
}
use middle.Text.{Text, runes, is_empty, trim_space}
use middle.Text.Utf8.{utf8}
use middle.Json.{Json}
use middle.Body.{max_audit_body, truncate_runes}
use middle.Redact.{redact_value}

-- `Unmarshal`, `MarshalIndent` and `Marshal`; what they print is valid UTF-8.
pub record Printer : Type 0 where
  pub decode : Text → Option Json
  pub pretty : Json → Option Text
  pub compact : Json → Option Text

-- The end of the function, on what `Marshal` gives.
abbrev pub shown_compact : Text → Option Text → List ℕ
shown_compact raw none = utf8 (trim_space raw)
shown_compact raw (some s) =
    if leb (length (utf8 s)) max_audit_body
    then utf8 s
    else take max_audit_body (utf8 s) ++ utf8 (runes "…")

module _ (json : Printer) where
  abbrev pub shown_value : Text → Json → Option Text → List ℕ
  shown_value raw v none = utf8 (trim_space raw)
  shown_value raw v (some s) =
      if leb (length (utf8 s)) max_audit_body then utf8 s else shown_compact raw (json.compact v)

  abbrev pub shown_decoded : Text → Option Json → List ℕ
  shown_decoded raw none = utf8 (truncate_runes (trim_space raw) max_audit_body)
  shown_decoded raw (some v) = shown_value raw (redact_value v) (json.pretty (redact_value v))

  unfoldable pub redact_json : Text → List ℕ
  redact_json raw = if is_empty (trim_space raw) then [] else shown_decoded raw (json.decode raw)
