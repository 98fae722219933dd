-- ===== src/Snapshot.antt =====
-- oplog/snapshot.go: which collection a path belongs to, and the document that is kept before a
-- write. The store (Mongo) is a parameter.
pub mod Laws
pub mod Before
mod Tests
use middle.Prelude.{
  ℕ, leb, ltb, eqb, length, take, ◌&&◌, Bool, true, false, ◌||◌, not, List, [], ◌∷◌, ◌++◌, Option,
  none, some, if◌then◌else◌,
}
use middle.Text.{Text, runes, is_empty, ◌==◌, trim_space, to_lower, contains}
use middle.Json.{Json, null, bool, num, str, arr, obj, Items, nil, item, Fields, end, field}

pub record Pair : Type 0 where
  pub substr : Text
  pub coll : Text

abbrev pub Registry : Type 0
Registry = List Pair

unfoldable pub register : Text → Text → Registry → Registry
register substr coll r =
    let s = to_lower (trim_space substr) in
    let c = trim_space coll in
    if is_empty s || is_empty c then r else r ++ (record { substr = s; coll = c } ∷ [])

-- `RegisterMap`, which meets the entries of the map in some order.
unfoldable pub register_map : List Pair → Registry → Registry
register_map [] r = r
register_map (e ∷ m) r = register_map m (register e.substr e.coll r)

-- The path that substrings are looked for in.
abbrev pub searched : Text → Text → Text
searched full_path raw_path = to_lower (full_path ++ (runes " " ++ raw_path))

-- The loop of `collectionFor`.
unfoldable pub first_match : Text → Registry → Text
first_match p [] = []
first_match p (e ∷ r) = if contains p e.substr then e.coll else first_match p r

unfoldable pub collection_for : Registry → Text → Text → Text
collection_for r full_path raw_path = first_match (searched full_path raw_path) r

abbrev pub is_secret : Text → Bool
is_secret k =
    let lk = to_lower k in lk == runes "context" || lk == runes "password" || lk == runes "passwd"

-- `sanitizeDoc`: nested documents are sanitised too; arrays are kept as they are.
unfoldable mutual
  pub sanitize_doc : Fields → Fields
  sanitize_doc end = end
  sanitize_doc (field k v rest) =
      let later = sanitize_doc rest in
      if is_secret k then later else field k (sanitize_value v) later

  pub sanitize_value : Json → Json
  sanitize_value (obj fs) = obj (sanitize_doc fs)
  sanitize_value (arr xs) = arr xs
  sanitize_value null = null
  sanitize_value (bool b) = bool b
  sanitize_value (num n) = num n
  sanitize_value (str s) = str s

-- A hexadecimal digit of an ObjectID.
abbrev is_hex : ℕ → Bool
is_hex c = (leb b'0' c && leb c b'9') || (leb b'a' c && leb c b'f') || (leb b'A' c && leb c b'F')

all_hex : Text → Bool
all_hex [] = true
all_hex (c ∷ s) = is_hex c && all_hex s

-- `primitive.ObjectIDFromHex(id)` returns no error.
unfoldable pub is_object_id : Text → Bool
unfolding all_hex
is_object_id id = eqb (length id) 24 && all_hex id

abbrev pub max_snapshot_bytes : ℕ
max_snapshot_bytes = 24576

-- The store, and what `json.Marshal` makes of a document, as bytes.
pub record Store : Type 0 where
  pub find_one : Text → Text → Option Fields
  pub marshal : Fields → Option (List ℕ)

-- The end of `loadBefore`, on what `FindOne` gives.
abbrev pub stored_before : Store → Option Fields → List ℕ
stored_before store none = []
stored_before store (some doc) = elim (store.marshal (sanitize_doc doc)) [
  | none ↦ []
  | some raw ↦ if ltb max_snapshot_bytes (length raw) then take max_snapshot_bytes raw else raw
]

-- The path parameters "_id" and "id", and the two paths of the request.
pub record Target : Type 0 where
  pub param_id : Text
  pub id : Text
  pub full_path : Text
  pub url_path : Text

abbrev pub target_id : Target → Text
target_id t = if is_empty (trim_space t.param_id) then trim_space t.id else trim_space t.param_id

unfoldable pub load_before : Store → Registry → Target → List ℕ
load_before store reg t =
    let id = target_id t in
    let coll = collection_for reg t.full_path t.url_path in
    if is_empty id || not (is_object_id id) || is_empty coll
    then []
    else stored_before store (store.find_one coll id)

-- What `Snapshot` puts under "Before" and "OldData"; `none` leaves the keys alone.
unfoldable pub snapshot : Store → Registry → Text → Target → Option (List ℕ)
snapshot store reg method t =
    let raw = load_before store reg t in
    if (method == runes "PUT" || method == runes "PATCH" || method == runes "DELETE")
      && not (is_empty raw)
    then some raw
    else none
