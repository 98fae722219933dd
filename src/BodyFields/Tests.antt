-- ===== src/BodyFields/Tests.antt =====
-- Bodies of oplog_test.go, and the theorem at one of them.
use middle.Prelude.{[], ◌∷◌, ◌≡◌, ◌⊎◌, refl}
use middle.Text.{runes, text_runs}
use middle.Json.{str, num, obj, Fields, field, end, find}
use middle.BodyFields.{
  no_fields, lookup_key, lookup_keys, lookup_string, children, collect_maps, json,
  extract_body_fields, login_log_type,
}
use middle.BodyFields.Lookup.{Among, lookup_string_sound}

abbrev nested : Fields
nested =
    field (runes "Phone") (str (runes " 138 ")) (field (runes "Merchant_ID") (str (runes "m1")) end)

abbrev root : Fields
root = field (runes "id") (num (runes "7")) (field (runes "identity") (obj nested) end)

read_body :
    extract_body_fields (json (obj root))
    ≡ record no_fields { id = runes "7"; phone = runes "138"; merchant_id = runes "m1" }
unfolding extract_body_fields collect_maps children find lookup_string lookup_keys lookup_key
    text_runs
read_body = refl

lookup_string_sound_instance :
    (lookup_string (root ∷ nested ∷ []) (runes "phone" ∷ []) ≡ [])
    ⊎ Among
        (runes "phone" ∷ [])
        (lookup_string (root ∷ nested ∷ []) (runes "phone" ∷ []))
        (root ∷ nested ∷ [])
lookup_string_sound_instance = lookup_string_sound (root ∷ nested ∷ []) (runes "phone" ∷ [])

otp_row : login_log_type (runes "/v1/auth/OTP/verify") [] ≡ runes "otp"
unfolding login_log_type text_runs
otp_row = refl
