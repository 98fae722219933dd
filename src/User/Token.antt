-- ===== src/User/Token.antt =====
-- user.go: Dump, DumpLoginInfo and Load, a login as the text in a token. base64 with encoding/json
-- is the parameter TokenLib; how json fills the fields of a login is written out.
pub mod Laws
mod Tests
use middle.Prelude.{Bool, true, false, List, [], ◌∷◌, Option, none, some, if◌then◌else◌}
use middle.Text.{Text, runes, equal_fold}
use middle.Json.{Json, null, bool, num, str, arr, obj, Fields, end, field}
use middle.User.{LoginInfo}

-- The text of an encoded document; `none` where base64 or json refuse the text.
pub record TokenLib : Type 0 where
  pub encode : Json → Text
  pub decode : Text → Option Json

-- `json:"sa,omitempty"`
abbrev pub super_admin_field : Bool → Fields
super_admin_field true = field (runes "sa") (bool true) end
super_admin_field false = end

-- A login as json writes it: OPTSecret has the tag "-".
abbrev pub token_fields : LoginInfo → Fields
token_fields l = field (runes "namespace") (str l.namespace) (
    field (runes "merchant-id") (str l.merchant_id) (
      field (runes "account_id") (str l.account_id) (
        field (runes "phone") (str l.phone) (
          field (runes "user_id") (str l.user_id) (
            field (runes "user_name") (str l.user_name) (
              field (runes "avatar") (str l.avatar) (
                field (runes "login_type") (str l.login_type) (
                  field (runes "login_level") (str l.login_level)
                    (super_admin_field l.super_admin)))))))))

-- A string goes into the field that `put` writes; nil leaves it alone, and anything else is an error.
abbrev pub text_field : Json → (Text → LoginInfo) → LoginInfo → Option LoginInfo
text_field (str s) put l = some (put s)
text_field null put l = some l
text_field (bool b) put l = none
text_field (num n) put l = none
text_field (arr xs) put l = none
text_field (obj fs) put l = none

abbrev pub bool_field : Json → LoginInfo → Option LoginInfo
bool_field (bool b) l = some (record l { super_admin = b })
bool_field null l = some l
bool_field (str s) l = none
bool_field (num n) l = none
bool_field (arr xs) l = none
bool_field (obj fs) l = none

-- The field of a key is found without regard to case; a key of no field is passed over.
unfoldable pub load_field : Text → Json → LoginInfo → Option LoginInfo
load_field k v l =
    if equal_fold k (runes "namespace")
    then text_field v (λ s. record l { namespace = s }) l
    else if equal_fold k (runes "merchant-id")
    then text_field v (λ s. record l { merchant_id = s }) l
    else if equal_fold k (runes "account_id")
    then text_field v (λ s. record l { account_id = s }) l
    else if equal_fold k (runes "phone")
    then text_field v (λ s. record l { phone = s }) l
    else if equal_fold k (runes "user_id")
    then text_field v (λ s. record l { user_id = s }) l
    else if equal_fold k (runes "user_name")
    then text_field v (λ s. record l { user_name = s }) l
    else if equal_fold k (runes "avatar")
    then text_field v (λ s. record l { avatar = s }) l
    else if equal_fold k (runes "login_type")
    then text_field v (λ s. record l { login_type = s }) l
    else if equal_fold k (runes "login_level")
    then text_field v (λ s. record l { login_level = s }) l
    else if equal_fold k (runes "sa")
    then bool_field v l
    else some l

abbrev pub then_load : Option LoginInfo → (LoginInfo → Option LoginInfo) → Option LoginInfo
then_load none k = none
then_load (some l) k = k l

unfoldable pub load_fields : Fields → LoginInfo → Option LoginInfo
load_fields end l = some l
load_fields (field k v rest) l = then_load (load_field k v l) (λ l'. load_fields rest l')

-- `json.Unmarshal` into a login
abbrev pub load_value : Option Json → LoginInfo → Option LoginInfo
load_value (some (obj fs)) l = load_fields fs l
load_value (some null) l = some l
load_value _ l = none

module _ (lib : TokenLib) where
  unfoldable pub dump_login_info : LoginInfo → Text
  dump_login_info l = lib.encode (obj (token_fields l))

  -- The secret is a parameter that the text does not depend on; the namespace is that of the
  -- environment.
  unfoldable pub dump : Text → LoginInfo → Text
  dump environment l =
      lib.encode (obj (token_fields (record l { namespace = environment; super_admin = false })))

  -- `Load`: the login after it, `none` for an error.
  unfoldable pub load : Text → LoginInfo → Option LoginInfo
  load payload l = load_value (lib.decode payload) l
