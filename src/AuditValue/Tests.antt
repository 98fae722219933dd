-- ===== src/AuditValue/Tests.antt =====
-- Snapshots, normalised and compared.
use middle.Prelude.{true, false, ◌≡◌, refl}
use middle.Text.{runes, text_runs}
use middle.Text.Float.{float_text, magnitude_text, leading_zeros, before_point}
use middle.Text.SortBy.{insert_by}
use middle.Text.Sort.{text_le}
use middle.Json.{null, num, str, arr, obj, nil, item, end, field, find}
use middle.AuditValue.{put, sprint, normalize_audit_value, has_keys, equal_audit}

-- "_" is flattened, "_id" becomes text, and "logs" goes.
flattened :
    normalize_audit_value (
      obj (
        field (runes "_id") (num (runes "5")) (
          field (runes "logs") (arr nil) (
            field
              (runes "_")
              (obj (
                field (runes "context") null (
                  field
                    (runes "name")
                    (str (runes "n"))
                    (field (runes "meta") (obj (field (runes "k") null end)) end))))
              end))))
    ≡ obj (
        field (runes "id") (str (runes "5")) (
          field
            (runes "meta")
            (obj (field (runes "k") null end))
            (field (runes "name") (str (runes "n")) end)))
unfolding normalize_audit_value put sprint text_runs float_text magnitude_text leading_zeros
    before_point
flattened = refl

printed_map :
    sprint (
      obj (
        field
          (runes "b")
          (arr (item null (item (num (runes "2")) nil)))
          (field (runes "a") (str (runes "x")) end)))
    ≡ runes "map[a:x b:[<nil> 2]]"
unfolding sprint insert_by text_le float_text magnitude_text leading_zeros before_point
printed_map = refl

-- A missing key is not a key with nil, and the order of keys does not matter.
missing_key : equal_audit (obj (field (runes "a") null end)) (obj end) ≡ false
unfolding equal_audit has_keys find text_runs
missing_key = refl

other_order :
    equal_audit
      (obj (field (runes "a") null (field (runes "b") (num (runes "1")) end)))
      (obj (field (runes "b") (num (runes "1")) (field (runes "a") null end)))
    ≡ true
unfolding equal_audit has_keys find text_runs
other_order = refl
