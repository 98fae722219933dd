-- ===== src/Redact/Shown/Tests.antt =====
-- A body with a password, for a printer that knows what comes up.
use middle.Prelude.{none, some, ◌≡◌, refl, if◌then◌else◌}
use middle.Text.{runes, ◌==◌, text_runs}
use middle.Text.Utf8.{utf8}
use middle.Json.{str, obj, end, field}
use middle.Body.{truncate_runes}
use middle.Redact.Shown.{Printer, redact_json}
use middle.Redact.Shown.Laws.{IsShown, redact_json-IsShown}

abbrev json : Printer
json = record {
  decode =
      λ s. if s == runes "{}" then some (obj (field (runes "OTP") (str (runes "1")) end)) else none;
  pretty = λ v. some (runes "{ }");
  compact = λ v. some (runes "{}");
}

-- A form is no JSON, and its password is shown.
form_shown : redact_json json (runes "password=pw") ≡ utf8 (runes "password=pw")
unfolding redact_json truncate_runes text_runs
form_shown = refl

redact_json-IsShown_example : IsShown json (runes "{}") (redact_json json (runes "{}"))
redact_json-IsShown_example =
    redact_json-IsShown json (runes "{}") (λ v. (runes "{ }", refl)) (λ v. (runes "{}", refl))
