-- ===== src/Diff/Tests.antt =====
-- The update of audit_compress_test.go, with a nested map and a time that is skipped.
use middle.Prelude.{
  [], ◌∷◌, ◌++◌, Option, none, some, ◌≡◌, ◌↔◌, ◌≤◌, refl, arith, In, All, length, if◌then◌else◌,
}
use middle.Text.{Text, runes, ◌==◌, text_runs}
use middle.Text.SortBy.{insert_by, sort_by, Ascending}
use middle.Text.Sort.{text_le, insert, sort_strings}
use middle.Json.{Json, null, num, str, arr, obj, nil, item, end, field, find}
use middle.AuditValue.{put, parse_audit_value, normalize_audit_value, has_keys, equal_audit}
use middle.Diff.{
  Change, path_of, max_audit_changes, skip_audit_path, add_keys, kind_of, each, diff_audit_value,
  depth, changes_of, normalized, diff_audit_json,
}
use middle.Diff.Depth.{changes_of-each}
use middle.Diff.Exact.{Reached, Differs}
use middle.Diff.Sorted.{diff_audit_json-Ascending, diff_audit_json_iff}

abbrev pub old_doc : Json
old_doc = obj (
    field (runes "password") (str (runes "secret"))
      (field (runes "name") (str (runes "a")) (field (runes "level") (num (runes "1")) end)))

abbrev pub new_doc : Json
new_doc = obj (
    field (runes "name") (str (runes "b")) (
      field (runes "_") (obj (field (runes "updated_at") (num (runes "7")) end)) (
        field (runes "level") (num (runes "1")) (
          field (runes "tags") (obj (field (runes "vip") (num (runes "2")) end))
            (field (runes "password") (str (runes "secret2")) end)))))

abbrev pub decode : Text → Option Json
decode s =
    if s == runes "old" then some old_doc else if s == runes "new" then some new_doc else none

abbrev name_change : Change
name_change = record {
  path = runes "name";
  before = str (runes "a");
  after = str (runes "b");
  kind = runes "changed";
}

abbrev vip_change : Change
vip_change = record {
  path = runes "tags.vip";
  before = null;
  after = num (runes "2");
  kind = runes "added";
}

name_and_vip : diff_audit_json decode (runes "old") (runes " new ") ≡ name_change ∷ vip_change ∷ []
unfolding diff_audit_json diff_audit_value depth insert_by sort_by changes_of each add_keys
    skip_audit_path equal_audit has_keys parse_audit_value normalize_audit_value put find text_le
    insert sort_strings text_runs
name_and_vip = refl

changes_of-each_instance :
    changes_of (runes "tags") null (obj (field (runes "vip") (num (runes "2")) end))
    ≡ changes_of (runes "tags.vip") null (num (runes "2")) ++ []
unfolding skip_audit_path equal_audit find add_keys each insert sort_strings text_runs
changes_of-each_instance =
    changes_of-each (runes "tags") null (obj (field (runes "vip") (num (runes "2")) end))

diff_audit_json-Ascending_example :
    (length (diff_audit_json decode (runes "old") (runes "new")) ≤ max_audit_changes)
    × Ascending path_of (diff_audit_json decode (runes "old") (runes "new"))
    × All
        (λ c.
          Reached []
            (normalized decode (runes "old"))
            (normalized decode (runes "new"))
            c.path
            c.before
            c.after
          × Differs c.path c.before c.after)
        (diff_audit_json decode (runes "old") (runes "new"))
diff_audit_json-Ascending_example = diff_audit_json-Ascending decode (runes "old") (runes "new")

few :
    length (changes_of [] (normalized decode (runes "old")) (normalized decode (runes "new")))
    ≤ max_audit_changes
unfolding changes_of diff_audit_value depth each add_keys skip_audit_path equal_audit has_keys
    parse_audit_value normalize_audit_value put find text_le insert sort_strings text_runs
few = omega arith

diff_audit_json_iff_example : In vip_change (diff_audit_json decode (runes "old") (runes "new")) ↔ (
    Reached []
      (normalized decode (runes "old"))
      (normalized decode (runes "new"))
      (runes "tags.vip")
      null
      (num (runes "2"))
    × Differs (runes "tags.vip") null (num (runes "2"))
    × (runes "added" ≡ kind_of null (num (runes "2"))))
diff_audit_json_iff_example = diff_audit_json_iff decode (runes "old") (runes "new") vip_change few

abbrev with_keys : Text → Json
with_keys secret =
    obj (field (runes "keys") (arr (item (obj (field (runes "api_key") (str secret) end)) nil)) end)

-- An array that changed is reported whole, with the keys in it.
array_whole :
    changes_of [] (with_keys (runes "k1")) (with_keys (runes "k2"))
    ≡ record {
      path = runes "keys";
      before = arr (item (obj (field (runes "api_key") (str (runes "k1")) end)) nil);
      after = arr (item (obj (field (runes "api_key") (str (runes "k2")) end)) nil);
      kind = runes "changed";
    }
      ∷ []
unfolding changes_of diff_audit_value depth each add_keys skip_audit_path equal_audit has_keys find
    insert sort_strings text_runs
array_whole = refl
