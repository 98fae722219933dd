-- ===== src/Compress/Tests.antt =====
-- The bodies of audit_compress_test.go, for a codec that knows the texts that come up.
use middle.Prelude.{[], ◌∷◌, none, some, ◌≡◌, ◌≤◌, ◌+◌, refl, arith, length, if◌then◌else◌}
use middle.Text.{Text, runes, ◌==◌, to_lower, trim_space, text_runs}
use middle.Text.SortBy.{insert_by, sort_by}
use middle.Text.Sort.{text_le, insert, sort_strings}
use middle.Text.Utf8.Laws.{is_low-IsRune}
use middle.Text.Utf8.{runes_of, utf8, rune_bytes}
use middle.Json.{Json, str, obj, end, field, find}
use middle.AuditValue.{put, parse_audit_value, normalize_audit_value, has_keys, equal_audit}
use middle.Diff.{
  Change, skip_audit_path, add_keys, each, diff_audit_value, depth, changes_of, diff_audit_json,
}
use middle.Compress.{
  Codec, max_audit_hot_bytes, find_folded, lookup_fold, summary_of, compress_audit_bodies,
  parse_audit_diff_after,
}
use middle.Compress.Bounds.{length-compress_audit_bodies}
use middle.Compress.Stored.{envelope_of, IsEncoded, parse_audit_diff_after-compress_audit_bodies}
use middle.Compress.Summary.{find-summary_of}

abbrev doc : Text → Json
doc name = obj (
    field (runes "Name") (str name) (
      field (runes "extra") (str (runes "deep"))
        (field (runes "_") (obj (field (runes "merchant_id") (str (runes "m7")) end)) end)))

abbrev rename : Change
rename = record {
  path = runes "Name";
  before = str (runes "a");
  after = str (runes "b");
  kind = runes "changed";
}

abbrev raw_changes : Text
raw_changes =
    runes
      "{\"__audit\":\"diff_v1\",\"changes\":[{\"path\":\"Name\",\"before\":\"a\",\"after\":\"b\",\"kind\":\"changed\"}]}"

abbrev codec : Codec
codec = record {
  decode =
      λ s. if s == runes "a" then some (doc s) else if s == runes "b" then some (doc s) else none;
  marshal = λ v. some (runes "{}");
  decode_envelope = λ s. if s == raw_changes then some (envelope_of (rename ∷ [])) else none;
  marshal_envelope = λ env. some raw_changes;
}

renamed : diff_audit_json codec.decode (runes "a") (runes "b") ≡ rename ∷ []
unfolding diff_audit_json diff_audit_value depth insert_by sort_by changes_of each add_keys
    skip_audit_path equal_audit has_keys parse_audit_value normalize_audit_value put find text_le
    insert sort_strings text_runs
renamed = refl

rename-IsEncoded : IsEncoded codec (envelope_of (rename ∷ [])) raw_changes
unfolding text_runs
rename-IsEncoded = record {
  encodes = refl;
  decodes = refl;
  solid = refl;
  valid = is_low-IsRune raw_changes refl;
  is_object = refl;
}

short_enough : length (utf8 raw_changes) ≤ max_audit_hot_bytes
unfolding utf8 rune_bytes
short_enough = omega arith

action_update : to_lower (trim_space (runes " Update")) ≡ runes "update"
unfolding text_runs
action_update = refl

parse_audit_diff_after-compress_audit_bodies_example :
    ((compress_audit_bodies codec (runes " Update") (runes "a") (runes "b")).0 ≡ [])
    × (parse_audit_diff_after codec.decode_envelope
          (runes_of (compress_audit_bodies codec (runes " Update") (runes "a") (runes "b")).1)
        ≡ some (diff_audit_json codec.decode (runes "a") (runes "b")))
parse_audit_diff_after-compress_audit_bodies_example =
    parse_audit_diff_after-compress_audit_bodies codec (runes " Update") (runes "a") (runes "b")
      raw_changes action_update (rw renamed (λ e. cc)) (rw renamed rename-IsEncoded) short_enough

length-compress_audit_bodies_example :
    (length (compress_audit_bodies codec (runes "delete") (runes "a") []).0
      ≤ max_audit_hot_bytes + 3)
    × (length (compress_audit_bodies codec (runes "delete") (runes "a") []).1
        ≤ max_audit_hot_bytes + 3)
length-compress_audit_bodies_example =
    length-compress_audit_bodies codec (runes "delete") (runes "a") []

find-summary_of_example :
    find (runes "name") (
      summary_of
        (field (runes "Name") (str (runes "z")) (field (runes "password") (str (runes "x")) end)))
    ≡ some (str (runes "z"))
unfolding find lookup_fold find_folded text_runs
find-summary_of_example =
    find-summary_of (runes "name")
      (field (runes "Name") (str (runes "z")) (field (runes "password") (str (runes "x")) end))
