-- ===== src/Body.antt =====
-- oplog.go: how the body of a request is captured for the audit log, and what the log shows of it.
-- A body is a list of bytes here.
pub mod Capture
mod Tests
use middle.Prelude.{
  ℕ, Bool, true, false, ◌||◌, List, [], ◌∷◌, ◌++◌, Option, none, some, leb, ltb, eqb, ◌+◌, length,
  take, if◌then◌else◌,
}
use middle.Prelude.Int.{ℤ, exceeds}
use middle.Text.{Text, runes, is_empty, trim_space, to_lower, has_prefix, contains}

-- A reader gives its bytes and then ends, or fails with an error behind them.
pub data Stream : Type 0 where
  whole : List ℕ → Stream
  broken : List ℕ → Stream

abbrev pub max_audit_body : ℕ
max_audit_body = 4096

-- The type that `c.ContentType()` gives, and `ContentLength`, which is -1 for a chunked body.
unfoldable pub skip_request_body_capture : Text → ℤ → Bool
skip_request_body_capture content_type content_length =
    let ct = to_lower content_type in
    if has_prefix ct (runes "multipart/") || contains ct (runes "octet-stream")
    then true
    else exceeds content_length max_audit_body

-- `io.ReadAll(io.LimitReader(body, n))`: `none` is an error, which is met only if it stands within
-- the limit.
abbrev pub read_limited : ℕ → Stream → Option (List ℕ)
read_limited n (whole bytes) = some (take n bytes)
read_limited n (broken bytes) = if leb n (length bytes) then some (take n bytes) else none

-- The captured payload, and the body that the handlers get. After an error nothing is left.
abbrev pub captured : Option (List ℕ) → Option (List ℕ) × Option Stream
captured none = (none, some (broken []))
captured (some payload) = (
  some (if ltb max_audit_body (length payload) then take max_audit_body payload else payload),
  some (whole payload),
)

unfoldable pub read_request_body : Text → ℤ → Option Stream → Option (List ℕ) × Option Stream
read_request_body content_type content_length none = (none, none)
read_request_body content_type content_length (some body) =
    if skip_request_body_capture content_type content_length
    then (none, some body)
    else captured (read_limited (max_audit_body + 1) body)

unfoldable pub truncate_runes : Text → ℕ → Text
truncate_runes s n = if eqb n 0 || is_empty s then s else if leb (length s) n then s else take n s

-- `shortID`
unfoldable pub short_id : Text → Text
short_id id = if leb (length id) 12 then id else take 8 id ++ runes "…"
