-- ===== src/BodyFields.antt =====
-- oplog.go: what the audit log reads from a decoded body, and log.go: the kind of a login row. A map
-- is looped over in the order of its list; url.ParseQuery is the argument `form`.
pub mod Lookup
mod Tests
use middle.Prelude.{
  Bool, true, false, ◌&&◌, ◌||◌, not, List, [], ◌∷◌, ◌++◌, Option, none, some, if◌then◌else◌,
}
use middle.Text.{Text, runes, is_empty, ◌==◌, trim_space, to_lower, equal_fold, contains}
use middle.Json.{Json, null, bool, num, str, arr, obj, Items, nil, item, Fields, end, field, find}
use middle.Oplog.{first_non_empty}

abbrev pub target_id_keys : List Text
target_id_keys =
    runes "id"
    ∷ runes "_id"
    ∷ runes "account_id"
    ∷ runes "user_id"
    ∷ runes "member_id"
    ∷ runes "target_id"
    ∷ []

abbrev pub target_name_keys : List Text
target_name_keys =
    runes "name" ∷ runes "nickname" ∷ runes "user_name" ∷ runes "username" ∷ runes "title" ∷ []

abbrev pub nested_body_keys : List Text
nested_body_keys =
    runes "identity"
    ∷ runes "profile"
    ∷ runes "user"
    ∷ runes "member"
    ∷ runes "account"
    ∷ runes "data"
    ∷ []

-- A number of a decoded body is a float64, which is printed as its shortest decimal.
abbrev pub stringify : Json → Text
stringify (str s) = trim_space s
stringify (num n) = n
stringify null = []
stringify (bool b) = []
stringify (arr xs) = []
stringify (obj fs) = []

-- The loop of `lookupString` over one map, for one key.
unfoldable pub lookup_key : Text → Fields → Text
lookup_key key end = []
lookup_key key (field k raw rest) =
    let later = lookup_key key rest in
    if equal_fold k key && not (is_empty (stringify raw)) then stringify raw else later

unfoldable pub lookup_keys : List Text → Fields → Text
lookup_keys [] m = []
lookup_keys (key ∷ keys) m =
    let later = lookup_keys keys m in
    if is_empty (lookup_key key m) then later else lookup_key key m

unfoldable pub lookup_string : List Fields → List Text → Text
lookup_string [] keys = []
lookup_string (m ∷ maps) keys =
    let later = lookup_string maps keys in
    if is_empty (lookup_keys keys m) then later else lookup_keys keys m

-- `child, ok := root[key].(map[string]interface{})`
abbrev pub with_child : Option Json → List Fields → List Fields
with_child (some (obj fs)) maps = fs ∷ maps
with_child _ maps = maps

unfoldable pub children : Fields → List Text → List Fields
children root [] = []
children root (key ∷ keys) = with_child (find key root) (children root keys)

unfoldable pub collect_maps : Json → List Fields
collect_maps (obj root) = root ∷ children root nested_body_keys
collect_maps (arr xs) = []
collect_maps null = []
collect_maps (bool b) = []
collect_maps (num n) = []
collect_maps (str s) = []

-- `bodyFields`
pub record Body : Type 0 where
  pub id : Text
  pub name : Text
  pub phone : Text
  pub user_id : Text
  pub account_id : Text
  pub merchant_id : Text
  pub login_type : Text
  pub type : Text

abbrev pub no_fields : Body
no_fields = record {
  id = [];
  name = [];
  phone = [];
  user_id = [];
  account_id = [];
  merchant_id = [];
  login_type = [];
  type = [];
}

abbrev pub form_fields : (Text → Text) → Body
form_fields get = record {
  id = first_non_empty (
      get (runes "id") ∷ get (runes "_id") ∷ get (runes "account_id") ∷ get (runes "user_id") ∷ []);
  name = first_non_empty (
      get (runes "name")
      ∷ get (runes "nickname")
      ∷ get (runes "user_name")
      ∷ get (runes "title")
      ∷ []);
  phone = get (runes "phone");
  user_id = get (runes "user_id");
  account_id = get (runes "account_id");
  merchant_id = get (runes "merchant_id");
  login_type = get (runes "login_type");
  type = get (runes "type");
}

abbrev pub json_fields : List Fields → Body
json_fields maps = record {
  id = lookup_string maps target_id_keys;
  name = lookup_string maps target_name_keys;
  phone = lookup_string maps (runes "phone" ∷ []);
  user_id = lookup_string maps (runes "user_id" ∷ []);
  account_id = lookup_string maps (runes "account_id" ∷ []);
  merchant_id = lookup_string maps (runes "merchant_id" ∷ runes "merchant" ∷ []);
  login_type = lookup_string maps (runes "login_type" ∷ []);
  type = lookup_string maps (runes "type" ∷ []);
}

-- What the two decoders make of the trimmed bytes: JSON, else the values of a query, else nothing.
pub data Decoded : Type 0 where
  blank : Decoded
  json : Json → Decoded
  form : (Text → Text) → Decoded
  undecoded : Decoded

unfoldable pub extract_body_fields : Decoded → Body
extract_body_fields blank = no_fields
extract_body_fields (json v) = json_fields (collect_maps v)
extract_body_fields (form get) = form_fields get
extract_body_fields undecoded = no_fields

unfoldable pub login_log_type : Text → Text → Text
login_log_type full_path raw_path =
    let p = to_lower (full_path ++ (runes " " ++ raw_path)) in
    if contains p (runes "signout")
    then runes "signout"
    else if contains p (runes "/otp")
    then runes "otp"
    else if contains p (runes "/mch")
    then runes "merchant_choose"
    else if contains p (runes "signup") || contains p (runes "register")
    then runes "signup"
    else runes "signin"
