-- ===== src/Body/Tests.antt =====
-- Bodies of oplog_test.go, and the theorems at them.
use middle.Prelude.{ℕ, ◌<◌, false, List, [], some, none, length, take, ◌≡◌, ◌≢◌, ◌⊎◌, refl}
use middle.Prelude.Int.{pos, negsuc}
use middle.Text.{Text, runes, text_runs}
use middle.Body.{whole, broken, skip_request_body_capture, read_request_body, short_id}
use middle.Body.Capture.{handed, read_request_body_cases, read_request_body_declared}

abbrev json : Text
json = runes "application/json"

abbrev body : List ℕ
body = runes "{\"name\":\"demo\"}"

taken : (read_request_body json (negsuc 0) (some (whole body))).0 ≡ some body
unfolding read_request_body skip_request_body_capture text_runs take
taken = refl

failed : read_request_body json (negsuc 0) (some (broken body)) ≡ (none, some (broken []))
unfolding read_request_body skip_request_body_capture text_runs take
failed = refl

upload_skipped :
    read_request_body (runes "Multipart/form-data") (pos 10) (some (whole body))
    ≡ (none, some (whole body))
unfolding read_request_body skip_request_body_capture text_runs
upload_skipped = refl

read_request_body_cases_example :
    (handed json (negsuc 0) body ≡ some (whole body))
    ⊎ ((skip_request_body_capture json (negsuc 0) ≡ false)
        × (4097 < length body)
        × (handed json (negsuc 0) body ≡ some (whole (take 4097 body)))
        × (handed json (negsuc 0) body ≢ some (whole body)))
read_request_body_cases_example = read_request_body_cases json (negsuc 0) body

read_request_body_declared_instance : handed json (pos (length body)) body ≡ some (whole body)
read_request_body_declared_instance = read_request_body_declared json body

shortened : short_id (runes "507f1f77bcf86cd799439011") ≡ runes "507f1f77…"
unfolding short_id take
shortened = refl
