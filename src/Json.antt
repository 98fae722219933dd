-- ===== src/Json.antt =====
-- What encoding/json decodes into `interface{}`. A number is a float64; it stands here as its
-- shortest decimal text without an exponent, which is the same for equal numbers. A Go map is a list of fields with
-- distinct keys; where the program loops over a map, the result depends on no order.
pub mod Lookup
use middle.Prelude.{Bool, true, false, Option, none, some, if◌then◌else◌}
use middle.Text.{Text, ◌==◌}

mutual
  pub data Json : Type 0 where
    null : Json
    bool : Bool → Json
    num : Text → Json
    str : Text → Json
    arr : Items → Json
    obj : Fields → Json

  pub data Items : Type 0 where
    nil : Items
    item : Json → Items → Items

  pub data Fields : Type 0 where
    end : Fields
    field : Text → Json → Fields → Fields

-- `v, ok := m[key]`
unfoldable pub find : Text → Fields → Option Json
find key end = none
find key (field k v rest) = if k == key then some v else find key rest

-- `m, ok := v.(map[string]interface{})`
abbrev pub as_object : Json → Option Fields
as_object (obj fs) = some fs
as_object _ = none

-- `s, ok := v.(string)`
abbrev pub as_string : Json → Option Text
as_string (str s) = some s
as_string _ = none
