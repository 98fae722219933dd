-- ===== src/Diff.antt =====
-- audit_compress.go: the changed fields of two snapshots.
pub mod Depth
pub mod Names
pub mod Exact
pub mod Sorted
mod Tests
use middle.Prelude.{
  ℕ, zero, suc, ◌+◌, Bool, true, false, ◌&&◌, ◌||◌, not, List, [], ◌∷◌, ◌++◌, Option, none, some,
  any, length, take, ltb, if◌then◌else◌,
}
use middle.Text.{Text, runes, is_empty, ◌==◌, to_lower, has_prefix, has_suffix, cut_last}
use middle.Text.Sort.{sort_strings}
use middle.Text.SortBy.{sort_by}
use middle.Json.{Json, null, bool, num, str, arr, obj, Fields, end, field, find}
use middle.AuditValue.{at, parse_audit_value, normalize_audit_value, equal_audit}

abbrev pub max_audit_changes : ℕ
max_audit_changes = 80

-- `AuditChange`
pub record Change : Type 0 where
  pub path : Text
  pub before : Json
  pub after : Json
  pub kind : Text

abbrev pub audit_skip_exact : List Text
audit_skip_exact =
    runes "password"
    ∷ runes "passwd"
    ∷ runes "old_password"
    ∷ runes "new_password"
    ∷ runes "token"
    ∷ runes "access_token"
    ∷ runes "refresh_token"
    ∷ runes "secret"
    ∷ runes "session_key"
    ∷ runes "jwt"
    ∷ runes "otp"
    ∷ runes "otp_secret"
    ∷ runes "opt_secret"
    ∷ runes "sms_code"
    ∷ runes "authorization"
    ∷ runes "cookie"
    ∷ runes "context"
    ∷ runes "logs"
    ∷ runes "phone_hash"
    ∷ runes "phone_enc"
    ∷ runes "phone_sec"
    ∷ runes "private"
    ∷ runes "merchant_api_key"
    ∷ runes "api_key"
    ∷ runes "user_key"
    ∷ []

abbrev pub audit_skip_suffix : List Text
audit_skip_suffix =
    runes "updated_at"
    ∷ runes "updated_time"
    ∷ runes "created_time"
    ∷ runes "created_at"
    ∷ runes "join_at"
    ∷ []

-- The part of a path behind its last dot, or all of it.
abbrev pub last_part : Text → Option (Text × Text) → Text
last_part path none = path
last_part path (some (_, after)) = after

unfoldable pub skip_audit_path : Text → Bool
skip_audit_path path =
    let last = last_part path (cut_last b'.' path) in
    let low = to_lower path in
    not (is_empty path)
    && (any (λ k. k == to_lower last) audit_skip_exact
        || any (λ s. has_suffix low s || last == s) audit_skip_suffix
        || has_prefix low (runes "logs")
        || has_prefix low (runes "context."))

-- The two are compared key by key: each is a map or nil, and one is a map.
abbrev pub both_maps : Json → Json → Bool
both_maps (obj fs) (obj gs) = true
both_maps (obj fs) null = true
both_maps null (obj gs) = true
both_maps _ _ = false

-- `keys[k] = struct{}{}`, in a set of keys
abbrev pub add_key : Text → List Text → List Text
add_key k keys = if any (λ k'. k' == k) keys then keys else k ∷ keys

unfoldable pub add_keys : Fields → List Text → List Text
add_keys end keys = keys
add_keys (field k v rest) keys = add_keys rest (add_key k keys)

-- The fields of a map; what is no map has none.
abbrev pub fields_of : Json → Fields
fields_of (obj fs) = fs
fields_of null = end
fields_of (bool b) = end
fields_of (num n) = end
fields_of (str s) = end
fields_of (arr xs) = end

abbrev pub names : Json → Json → List Text
names before after = sort_strings (add_keys (fields_of after) (add_keys (fields_of before) []))

abbrev pub child_path : Text → Text → Text
child_path path k = if is_empty path then k else path ++ (runes "." ++ k)

abbrev pub kind_of : Json → Json → Text
kind_of null _ = runes "added"
kind_of _ null = runes "removed"
kind_of _ _ = runes "changed"

-- What a loop over the keys appends.
unfoldable pub each : (Text → List Change) → List Text → List Change
each f [] = []
each f (k ∷ ks) = f k ++ each f ks

-- `diffAuditValue`, with what it appends to `out`. The first argument bounds the nesting of calls.
unfoldable pub diff_audit_value : ℕ → Text → Json → Json → List Change
diff_audit_value zero path before after = []
diff_audit_value (suc n) path before after =
    let below =
      each (λ k. diff_audit_value n (child_path path k) (at k before) (at k after))
        (names before after) in
    if skip_audit_path path || equal_audit before after
    then []
    else if both_maps before after
    then below
    else record { path = path; before = before; after = after; kind = kind_of before after } ∷ []

-- How deep maps are nested, or more: it bounds the calls.
unfoldable mutual
  pub depth : Json → ℕ
  depth (obj fs) = suc (depths fs)
  depth null = 0
  depth (bool b) = 0
  depth (num n) = 0
  depth (str s) = 0
  depth (arr xs) = 0

  pub depths : Fields → ℕ
  depths end = 0
  depths (field k v rest) = depth v + depths rest

-- `sort.Slice` by path. Two changes with one path (a key with a dot in it) may come in any order in
-- Go.
abbrev pub path_of : Change → Text
path_of c = c.path

abbrev pub sort_changes : List Change → List Change
sort_changes out = sort_by path_of out

-- The call with as much as it needs.
unfoldable pub changes_of : Text → Json → Json → List Change
changes_of path before after = diff_audit_value (suc (depth before + depth after)) path before after

-- `out[:maxAuditChanges]`
abbrev pub cut_changes : List Change → List Change
cut_changes out = if ltb max_audit_changes (length out) then take max_audit_changes out else out

abbrev pub normalized : (Text → Option Json) → Text → Json
normalized decode raw = normalize_audit_value (parse_audit_value decode raw)

unfoldable pub diff_audit_json : (Text → Option Json) → Text → Text → List Change
diff_audit_json decode before_raw after_raw =
    sort_changes
      (cut_changes (changes_of [] (normalized decode before_raw) (normalized decode after_raw)))
