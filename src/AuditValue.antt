-- ===== src/AuditValue.antt =====
-- audit_compress.go: the decoded snapshots that a difference is taken of, how they are normalised
-- and compared. A Go map is run over in the order of its list; encoding/json's decoder is the
-- parameter `decode`.
pub mod Equal
mod Tests
use middle.Prelude.{
  Bool, true, false, ◌&&◌, ◌||◌, List, [], ◌∷◌, ◌++◌, Option, none, some, if◌then◌else◌,
}
use middle.Text.{Text, runes, is_empty, ◌==◌, trim_space}
use middle.Text.Float.{float_text}
use middle.Text.SortBy.{insert_by}
use middle.Json.{Json, null, bool, num, str, arr, obj, Items, nil, item, Fields, end, field, find}

-- `m[key] = v`
unfoldable pub put : Text → Json → Fields → Fields
put key v end = field key v end
put key v (field k w rest) =
    let later = put key v rest in if k == key then field k v rest else field k w later

-- One key and the text of its value, as fmt prints a map: in the order of the keys.
record Entry : Type 0 where
  key : Text
  text : Text

entries_text : List Entry → Text
entries_text [] = []
entries_text (e ∷ l) =
    let rest = entries_text l in
    let part = e.key ++ (runes ":" ++ e.text) in
    if is_empty l then part else part ++ (runes " " ++ rest)

-- `fmt.Sprint(v)`
unfoldable mutual
  unfolding entries_text

  pub sprint : Json → Text
  sprint null = runes "<nil>"
  sprint (bool b) = if b then runes "true" else runes "false"
  sprint (num n) = float_text n
  sprint (str s) = s
  sprint (arr xs) = runes "[" ++ (sprint_items xs ++ runes "]")
  sprint (obj fs) = runes "map[" ++ (entries_text (sprint_fields fs) ++ runes "]")

  sprint_items : Items → Text
  sprint_items nil = []
  sprint_items (item x nil) = sprint x
  sprint_items (item x xs) = sprint x ++ (runes " " ++ sprint_items xs)

  sprint_fields : Fields → List Entry
  sprint_fields end = []
  sprint_fields (field k v rest) =
      insert_by (λ e. e.key) (record { key = k; text = sprint v }) (sprint_fields rest)

-- `parseAuditValue`
unfoldable pub parse_audit_value : (Text → Option Json) → Text → Json
parse_audit_value decode raw =
    let s = trim_space raw in
    if is_empty s || s == runes "null" then null else elim (decode s) [ none ↦ str s | some v ↦ v ]

-- `normalizeAuditValue`: the fields of a map go into the map `out`, one after the other.
unfoldable mutual
  pub normalize_audit_value : Json → Json
  normalize_audit_value (obj fs) = obj (normalize_fields fs end)
  normalize_audit_value (arr xs) = arr (normalize_items xs)
  normalize_audit_value null = null
  normalize_audit_value (bool b) = bool b
  normalize_audit_value (num n) = num n
  normalize_audit_value (str s) = str s

  pub normalize_items : Items → Items
  normalize_items nil = nil
  normalize_items (item x xs) = item (normalize_audit_value x) (normalize_items xs)

  pub normalize_fields : Fields → Fields → Fields
  normalize_fields end out = out
  normalize_fields (field k child rest) out =
      let out' =
        if k == runes "context" || k == runes "logs"
        then out
        else if k == runes "_"
        then flatten child out
        else if k == runes "_id"
        then put (runes "id") (str (sprint child)) out
        else put k (normalize_audit_value child) out in
      normalize_fields rest out'

  -- What stands under "_" moves up: first its "meta", then the rest, without "context".
  pub flatten : Json → Fields → Fields
  flatten (obj nested) out = flatten_rest nested (flatten_meta nested out)
  flatten (arr xs) out = out
  flatten null out = out
  flatten (bool b) out = out
  flatten (num n) out = out
  flatten (str s) out = out

  pub flatten_meta : Fields → Fields → Fields
  flatten_meta end out = out
  flatten_meta (field k v rest) out =
      let later = flatten_meta rest out in
      let here = put_meta v out in if k == runes "meta" then here else later

  pub put_meta : Json → Fields → Fields
  put_meta (obj meta) out = put (runes "meta") (obj (normalize_fields meta end)) out
  put_meta (arr xs) out = out
  put_meta null out = out
  put_meta (bool b) out = out
  put_meta (num n) out = out
  put_meta (str s) out = out

  pub flatten_rest : Fields → Fields → Fields
  flatten_rest end out = out
  flatten_rest (field k v rest) out =
      let out' =
        if k == runes "meta" || k == runes "context"
        then out
        else put k (normalize_audit_value v) out in
      flatten_rest rest out'

-- `w, ok := m[k]` and a test of `w`
abbrev pub holds : (Json → Bool) → Option Json → Bool
holds p none = false
holds p (some w) = p w

-- `m[k]` for a map, and nil for what is no map
abbrev pub or_null : Option Json → Json
or_null none = null
or_null (some v) = v

abbrev pub at : Text → Json → Json
at k (obj fs) = or_null (find k fs)
at k null = null
at k (bool b) = null
at k (num n) = null
at k (str s) = null
at k (arr xs) = null

abbrev eq_bool : Bool → Bool → Bool
eq_bool true b = b
eq_bool false true = false
eq_bool false false = true

unfoldable pub has_keys : Fields → Fields → Bool
has_keys end fs = true
has_keys (field k w rest) fs = holds (λ v. true) (find k fs) && has_keys rest fs

-- `reflect.DeepEqual` on decoded values: maps are equal if each key of the one is in the other with
-- an equal value, and no other key is there.
unfoldable mutual
  pub equal_audit : Json → Json → Bool
  equal_audit null null = true
  equal_audit (bool a) (bool b) = eq_bool a b
  equal_audit (num m) (num n) = m == n
  equal_audit (str s) (str t) = s == t
  equal_audit (arr xs) (arr ys) = equal_items xs ys
  equal_audit (obj fs) (obj gs) = equal_fields fs gs && has_keys gs fs
  equal_audit _ _ = false

  pub equal_items : Items → Items → Bool
  equal_items nil nil = true
  equal_items (item x xs) (item y ys) = equal_audit x y && equal_items xs ys
  equal_items _ _ = false

  pub equal_fields : Fields → Fields → Bool
  equal_fields end gs = true
  equal_fields (field k v rest) gs =
      holds (λ w. equal_audit v w) (find k gs) && equal_fields rest gs
