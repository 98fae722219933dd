-- ===== src/Snapshot/Tests.antt =====
-- A registry of snapshot_test.go, and the theorems at it.
use middle.Prelude.{any, [], ◌∷◌, some, none, ◌≡◌, ◌≢◌, refl, if◌then◌else◌, arith}
use mathlib.Core.Option
use middle.Text.{runes, text_runs, contains, trim_space, to_lower, ◌==◌}
use middle.Json.{str, obj, field, end, find, Fields}
use middle.Snapshot.{
  Registry, register, searched, first_match, collection_for, is_secret, sanitize_doc,
  sanitize_value, Store, Target, is_object_id, load_before, snapshot,
}
use middle.Snapshot.Before.{IsKept, snapshot-IsKept}
use middle.Snapshot.Laws.{
  IsWellFormed, register-IsWellFormed, collection_for-register, find-sanitize_doc, HidesSecrets,
  sanitize_doc-HidesSecrets,
}

abbrev registry : Registry
registry = record { substr = runes "/product/"; coll = runes "product" } ∷ []

registry_full : IsWellFormed registry
registry_full = ((λ e. ground arith, λ e. ground arith), tt)

register-IsWellFormed_instance :
    IsWellFormed (register (runes " /Order/ ") (runes "order") registry)
register-IsWellFormed_instance =
    register-IsWellFormed (runes " /Order/ ") (runes "order") registry registry_full

ordered : (to_lower (trim_space (runes " /Order/ ")) ≢ []) × (trim_space (runes "order") ≢ [])
unfolding text_runs
ordered = (λ e. ground arith, λ e. ground arith)

collection_for-register_instance :
    collection_for
      (register (runes " /Order/ ") (runes "order") registry)
      (runes "/v1/order/:id")
      (runes "/v1/order/1")
    ≡ (if any
          (λ x. contains (searched (runes "/v1/order/:id") (runes "/v1/order/1")) x.substr)
          registry
        then collection_for registry (runes "/v1/order/:id") (runes "/v1/order/1")
        else if contains
            (searched (runes "/v1/order/:id") (runes "/v1/order/1"))
            (to_lower (trim_space (runes " /Order/ ")))
        then trim_space (runes "order")
        else [])
collection_for-register_instance =
    collection_for-register (runes " /Order/ ") (runes "order") registry (runes "/v1/order/:id")
      (runes "/v1/order/1") (ordered.0) (ordered.1)

found_order :
    collection_for
      (register (runes " /Order/ ") (runes "order") registry)
      (runes "/v1/order/:id")
      (runes "/v1/order/1")
    ≡ runes "order"
unfolding collection_for register first_match text_runs
found_order = refl

abbrev document : Fields
document = field (runes "name") (str (runes "demo")) (
    field (runes "inner") (obj (field (runes "PassWD") (str (runes "x")) end))
      (field (runes "Password") (str (runes "y")) end))

sanitized :
    sanitize_doc document
    ≡ field (runes "name") (str (runes "demo")) (field (runes "inner") (obj end) end)
unfolding sanitize_doc text_runs
sanitized = refl

find-sanitize_doc_instance : find (runes "Password") (sanitize_doc document) ≡ (
    if is_secret (runes "Password")
    then none
    else Option.map sanitize_value (find (runes "Password") document))
find-sanitize_doc_instance = find-sanitize_doc (runes "Password") document

sanitize_doc-HidesSecrets_example : HidesSecrets (sanitize_doc document)
sanitize_doc-HidesSecrets_example = sanitize_doc-HidesSecrets document

store : Store
store = record {
  find_one = λ coll id. if coll == runes "order" then some document else none;
  marshal = λ fs. some (runes "{}");
}

orders : Registry
orders = record { substr = runes "/order/"; coll = runes "order" } ∷ []

abbrev target : Target
target = record {
  param_id = [];
  id = runes " 507f1f77bcf86cd799439011 ";
  full_path = runes "/v1/Order/:id";
  url_path = [];
}

kept : snapshot store orders (runes "DELETE") target ≡ some (runes "{}")
unfolding snapshot load_before is_object_id collection_for first_match text_runs store orders
kept = refl

not_an_id : snapshot store orders (runes "DELETE") (record target { id = runes "1" }) ≡ none
unfolding snapshot load_before is_object_id collection_for first_match text_runs store orders
not_an_id = refl

snapshot-IsKept_example : IsKept store orders (runes "DELETE") target (runes "{}")
snapshot-IsKept_example = snapshot-IsKept store orders (runes "DELETE") target (runes "{}") kept
