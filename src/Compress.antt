-- ===== src/Compress.antt =====
-- audit_compress.go: what is stored of the bodies before and after a write. What is stored is a list
-- of bytes, since a cut may fall inside a rune. encoding/json is the parameter Codec.
pub mod Bounds
pub mod Stored
pub mod Summary
mod Tests
use middle.Prelude.{
  ℕ, Bool, true, false, ◌||◌, List, [], ◌∷◌, ◌++◌, Option, none, some, any, length, take, leb, eqb,
  if◌then◌else◌,
}
use middle.Text.{Text, runes, is_empty, ◌==◌, trim_space, to_lower, has_prefix}
use middle.Text.Utf8.{utf8}
use middle.Json.{Json, null, bool, num, str, arr, obj, Fields, end, field, find}
use middle.AuditValue.{put}
use middle.Diff.{Change, audit_skip_exact, diff_audit_json}

-- `auditDiffEnvelope`; no changes are a nil slice.
pub record Envelope : Type 0 where
  pub audit : Text
  pub changes : Option (List Change)

-- Decoding and encoding of any value and of an envelope.
pub record Codec : Type 0 where
  pub decode : Text → Option Json
  pub marshal : Json → Option Text
  pub decode_envelope : Text → Option Envelope
  pub marshal_envelope : Envelope → Option Text

abbrev pub max_audit_hot_bytes : ℕ
max_audit_hot_bytes = 8192

abbrev pub audit_diff_version : Text
audit_diff_version = runes "diff_v1"

abbrev pub audit_summary_keys : List Text
audit_summary_keys =
    runes "id"
    ∷ runes "_id"
    ∷ runes "name"
    ∷ runes "nickname"
    ∷ runes "title"
    ∷ runes "status"
    ∷ runes "level"
    ∷ runes "merchant_id"
    ∷ runes "account_id"
    ∷ runes "user_id"
    ∷ runes "target_id"
    ∷ runes "phone"
    ∷ runes "email"
    ∷ runes "code"
    ∷ runes "type"
    ∷ []

unfoldable pub truncate_audit_bytes : List ℕ → ℕ → List ℕ
truncate_audit_bytes s n =
    if eqb n 0 || is_empty s || leb (length s) n then s else take n s ++ utf8 (runes "…")

-- The loop of `lookupFold`, which meets the keys in any order.
unfoldable pub find_folded : Text → Fields → Option Json
find_folded low end = none
find_folded low (field k v rest) = if to_lower k == low then some v else find_folded low rest

abbrev pub or_folded : Option Json → Option Json → Option Json
or_folded (some v) later = some v
or_folded none later = later

unfoldable pub lookup_fold : Fields → Text → Option Json
lookup_fold m key = or_folded (find key m) (find_folded (to_lower key) m)

abbrev pub put_found : Text → Option Json → Fields → Fields
put_found key none out = out
put_found key (some v) out =
    put key (if any (λ k. k == to_lower key) audit_skip_exact then str (runes "***") else v) out

-- The loop over `auditSummaryKeys`.
unfoldable pub summary : List Text → Fields → Fields → Fields
summary [] root out = out
summary (key ∷ keys) root out = summary keys root (put_found key (lookup_fold root key) out)

-- `if mid, ok := lookupFold(inner, "merchant_id"); ok`
abbrev pub put_merchant : Option Json → Fields → Fields
put_merchant none out = out
put_merchant (some mid) out = put (runes "merchant_id") mid out

-- `inner, ok := root["_"].(map[string]interface{})`
abbrev pub inner_merchant : Option Json → Option Json
inner_merchant (some (obj inner)) = lookup_fold inner (runes "merchant_id")
inner_merchant _ = none

unfoldable pub summary_of : Fields → Fields
summary_of root =
    put_merchant (inner_merchant (find (runes "_") root)) (summary audit_summary_keys root end)

-- What `json.Marshal` gives, or else the text itself.
abbrev pub encoded_or : List ℕ → Option Text → List ℕ
encoded_or raw none = raw
encoded_or raw (some b) = utf8 b

module _ (codec : Codec) where
  -- The end of `compactAuditSummary`, on what the decoder makes of the text `s`.
  abbrev pub decoded_summary : Text → Option Json → List ℕ
  decoded_summary s (some (obj root)) =
      encoded_or (truncate_audit_bytes (utf8 s) max_audit_hot_bytes)
        (codec.marshal (obj (summary_of root)))
  decoded_summary s _ = truncate_audit_bytes (utf8 s) max_audit_hot_bytes

  unfoldable pub compact_audit_summary : Text → List ℕ
  compact_audit_summary raw =
      let s = trim_space raw in if is_empty s then [] else decoded_summary s (codec.decode s)

  -- What an update keeps of its changes.
  abbrev pub stored_changes : Text → List Change → List ℕ
  stored_changes after [] = []
  stored_changes after (c ∷ changes) =
      truncate_audit_bytes
        (encoded_or (utf8 after) (
          codec.marshal_envelope
            (record { audit = audit_diff_version; changes = some (c ∷ changes) })))
        max_audit_hot_bytes

  unfoldable pub compress_audit_bodies : Text → Text → Text → List ℕ × List ℕ
  compress_audit_bodies action before after =
      let act = to_lower (trim_space action) in
      if act == runes "update"
      then ([], stored_changes after (diff_audit_json codec.decode before after))
      else if act == runes "create"
      then ([], truncate_audit_bytes (compact_audit_summary after) max_audit_hot_bytes)
      else if act == runes "delete"
      then (truncate_audit_bytes (compact_audit_summary before) max_audit_hot_bytes, [])
      else (
        truncate_audit_bytes (utf8 before) max_audit_hot_bytes,
        truncate_audit_bytes (utf8 after) max_audit_hot_bytes,
      )

-- `env.Audit != auditDiffVersion || env.Changes == nil`
abbrev pub changes_in : Option Envelope → Option (List Change)
changes_in none = none
changes_in (some env) = if env.audit == audit_diff_version then env.changes else none

unfoldable pub parse_audit_diff_after : (Text → Option Envelope) → Text → Option (List Change)
parse_audit_diff_after decode_envelope after =
    let s = trim_space after in
    if has_prefix s (runes "{") then changes_in (decode_envelope s) else none
