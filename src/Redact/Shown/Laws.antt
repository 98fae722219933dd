-- ===== src/Redact/Shown/Laws.antt =====
-- What RedactJSON shows, on every branch.
use middle.Prelude.{
  ℕ, List, [], ◌++◌, none, some, ◌≡◌, arith, Bool-cases, Option-cases, Empty-cases, inl, inr,
  length, take, leb, ◌≤◌,
}
use middle.Text.{Text, runes, trim_space}
use middle.Text.Equality.{is_empty_of_ne}
use middle.Text.Utf8.{utf8}
use middle.Json.{Json}
use middle.Json.Lookup.{Deep}
use middle.Body.{max_audit_body, truncate_runes}
use middle.Redact.{redact_value}
use middle.Redact.Clean.{IsMasked, redact_value-IsMasked}
use middle.Redact.Shown.{Printer, shown_value, shown_compact, redact_json}

-- The text of a value that has the mask under every sensitive key, whole or cut; nothing of a blank
-- body; and the body itself, cut but not redacted, if it is no JSON.
pub data IsShown (json : Printer) (raw : Text) : List ℕ → Type 0 where
  blank : trim_space raw ≡ [] → IsShown json raw []
  printed :
      (v : Json) (s : Text)
      → json.decode raw ≡ some v
      → Deep IsMasked (redact_value v)
      → length (utf8 s) ≤ max_audit_body
      → json.pretty (redact_value v) ≡ some s
      → IsShown json raw (utf8 s)
  printed_compact :
      (v : Json) (s : Text)
      → json.decode raw ≡ some v
      → Deep IsMasked (redact_value v)
      → length (utf8 s) ≤ max_audit_body
      → json.compact (redact_value v) ≡ some s
      → IsShown json raw (utf8 s)
  cut_compact :
      (v : Json) (s : Text)
      → json.decode raw ≡ some v
      → Deep IsMasked (redact_value v)
      → json.compact (redact_value v) ≡ some s
      → IsShown json raw (take max_audit_body (utf8 s) ++ utf8 (runes "…"))
  no_json :
      json.decode raw ≡ none
      → IsShown json raw (utf8 (truncate_runes (trim_space raw) max_audit_body))

shown_compact-IsShown :
    (json : Printer) (raw : Text) (v : Json) (s : Text)
    → json.decode raw ≡ some v
    → json.compact (redact_value v) ≡ some s
    → IsShown json raw (shown_compact raw (some s))
shown_compact-IsShown json raw v s d c = elim (Bool-cases (leb (length (utf8 s)) max_audit_body)) [
  | inl fits ↦ rw fits (printed_compact v s d (redact_value-IsMasked v).0 (ground (arith, fits)) c)
  | inr long ↦ rw long (cut_compact v s d (redact_value-IsMasked v).0 c)
]

shown_value-IsShown :
    (json : Printer) (raw : Text) (v : Json) (s t : Text)
    → json.decode raw ≡ some v
    → json.pretty (redact_value v) ≡ some s
    → json.compact (redact_value v) ≡ some t
    → IsShown json raw (shown_value json raw (redact_value v) (some s))
shown_value-IsShown json raw v s t d p c =
    elim (Bool-cases (leb (length (utf8 s)) max_audit_body)) [
      | inl fits ↦ rw fits (printed v s d (redact_value-IsMasked v).0 (ground (arith, fits)) p)
      | inr long ↦ rw (long, c) (shown_compact-IsShown json raw v t d c)
    ]

-- If a decoded value can always be printed again, RedactJSON shows of a JSON body only the text of
-- the redacted value, in which every sensitive key at any depth holds the mask, whole or cut; of a
-- blank body nothing; and of a body that is no JSON its first 4096 runes as they are.
pub redact_json-IsShown :
    (json : Printer) (raw : Text)
    → ((v : Json) → (s : Text) × (json.pretty v ≡ some s))
    → ((v : Json) → (s : Text) × (json.compact v ≡ some s))
    → IsShown json raw (redact_json json raw)
unfolding redact_json
redact_json-IsShown json raw pretty compact = elim (Empty-cases (trim_space raw)) [
  | inl e ↦ rw e (blank e)
  | inr solid ↦ elim (Option-cases (json.decode raw)) [
    | inl d ↦ rw (is_empty_of_ne _ solid, d) (no_json d)
    | inr (v, d) ↦
        let (s, p) = pretty (redact_value v) in
        let (t, c) = compact (redact_value v) in
        rw (is_empty_of_ne _ solid, d, p) (shown_value-IsShown json raw v s t d p c)
  ]
]
