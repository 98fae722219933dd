-- ===== src/Json/Lookup.antt =====
-- Objects that hold at every depth: a predicate on the fields of all objects of a document, those
-- in arrays included.
use middle.Text.{Text}
use middle.Json.{Json, null, bool, num, str, arr, obj, Items, nil, item, Fields, end, field}

module _ (P : Text → Json → Type 0) where
  abbrev mutual
    pub Deep : Json → Type 0
    Deep (arr xs) = DeepItems xs
    Deep (obj fs) = DeepFields fs
    Deep null = Unit
    Deep (bool b) = Unit
    Deep (num n) = Unit
    Deep (str s) = Unit

    pub DeepItems : Items → Type 0
    DeepItems nil = Unit
    DeepItems (item x xs) = Deep x × DeepItems xs

    pub DeepFields : Fields → Type 0
    DeepFields end = Unit
    DeepFields (field k v rest) = P k v × Deep v × DeepFields rest
