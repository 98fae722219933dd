-- ===== src/Callback.antt =====
-- callback_auth.go: signatures of platform callbacks. crypto/md5 with encoding/hex stands as the
-- parameter `digest`, the lower-case hexadecimal MD5 sum of a text. `ParseForm` of net/http is the
-- record FormLib. Log lines are left out.
pub mod Sorted
pub mod Sound
mod Tests
use middle.Prelude.{
  ℕ, Bool, true, false, ◌&&◌, ◌||◌, not, List, [], ◌∷◌, ◌++◌, Option, none, some, any, leb, ltb,
  eqb, if◌then◌else◌,
}
use middle.Text.{Text, runes, is_empty, ◌==◌, trim_space, to_lower, to_upper}
use middle.Text.Sort.{sort_strings}
use middle.Json.{Json, str, obj, end, field}
use middle.Http.{Context}

-- `map[string]string`: its keys, in the order in which a loop meets them, and its values.
pub record Params : Type 0 where
  pub keys : List Text
  pub value : Text → Text

abbrev pub sign_key : Text
sign_key = runes "sign"

abbrev pub has_key : Params → Text → Bool
has_key params key = any (λ k. k == key) params.keys

-- Keys that are signed: not a skipped one, and not with a blank value.
abbrev pub is_signed : List Text → (Text → Text) → Text → Bool
is_signed skip_keys value k =
    not (any (λ s. to_lower s == to_lower k) skip_keys) && not (is_empty (trim_space (value k)))

unfoldable pub signed_keys : List Text → (Text → Text) → List Text → List Text
signed_keys skip_keys value [] = []
signed_keys skip_keys value (k ∷ keys) =
    let rest = signed_keys skip_keys value keys in
    if is_signed skip_keys value k then k ∷ rest else rest

-- `strings.Join` of "k=v" with "&".
unfoldable pub joined : (Text → Text) → List Text → Text
joined value [] = []
joined value (k ∷ keys) =
    let rest = joined value keys in
    let part = k ++ (runes "=" ++ value k) in
    if is_empty keys then part else part ++ (runes "&" ++ rest)

unfoldable pub canonical_sorted_kv : Params → List Text → Text
canonical_sorted_kv params skip_keys =
    joined params.value (sort_strings (signed_keys skip_keys params.value params.keys))

unfoldable pub sign_equal_constant_time : Text → Text → Bool
sign_equal_constant_time got want =
    let g = to_upper (trim_space got) in
    let w = to_upper (trim_space want) in if is_empty g || is_empty w then false else g == w

module _ (digest : Text → Text) where
  unfoldable pub uu_md5_sign : Text → Text → Text
  uu_md5_sign payload key = to_upper (digest (to_upper (payload ++ (runes "&key=" ++ key))))

  -- The loop of `VerifyUUMD5` over the candidate keys; `seen` are those that were tried.
  unfoldable pub try_keys : Text → Text → List Text → List Text → Bool
  try_keys got payload seen [] = false
  try_keys got payload seen (key ∷ keys) =
      let skipped = try_keys got payload seen keys in
      let tried = try_keys got payload (trim_space key ∷ seen) keys in
      if is_empty (trim_space key)
      then skipped
      else if any (λ k. k == trim_space key) seen
      then skipped
      else if sign_equal_constant_time got (uu_md5_sign payload (trim_space key))
      then true
      else tried

  unfoldable pub verify_uu_md5 : Params → List Text → Bool
  verify_uu_md5 params keys =
      let payload = canonical_sorted_kv params (sign_key ∷ []) in
      if not (has_key params sign_key) || is_empty (trim_space (params.value sign_key))
      then false
      else if is_empty payload
      then false
      else try_keys (params.value sign_key) payload [] keys

-- `c.Request.Form` after `ParseForm`: the values of each key, in the order of the loop, and the
-- query parameter "sign".
pub record Form : Type 0 where
  pub keys : List Text
  pub values : Text → List Text
  pub query_sign : Text

abbrev pub first_value : List Text → Text
first_value [] = []
first_value (v ∷ vs) = trim_space v

unfoldable pub form_keys : Form → List Text → List Text
form_keys form [] = []
form_keys form (k ∷ keys) =
    let rest = form_keys form keys in
    if is_empty (first_value (form.values k)) then rest else k ∷ rest

-- The parameters that `StaticUUMD5Verifier` verifies.
unfoldable pub form_params : Form → Params
form_params form =
    let keys = form_keys form form.keys in
    let value : Text → Text = λ k. first_value (form.values k) in
    if not (any (λ k. k == sign_key) keys) && not (is_empty (trim_space form.query_sign))
    then record {
      keys = sign_key ∷ keys;
      value = λ k. if k == sign_key then trim_space form.query_sign else value k;
    }
    else record { keys = keys; value = value }

-- A request with what is left of its body to read, and `c.Request.Form` once it was parsed.
pub record Incoming : Type 0 where
  pub context : Context
  pub body : Text
  pub form : Option Form

-- What `ParseForm` does with a request that it has not seen: whether it reads the body (for POST,
-- PUT and PATCH with the content type of a form) and the form that the query and the body give. The
-- form of a failed parse is that of what could be read.
pub record FormLib : Type 0 where
  pub reads_body : Context → Bool
  pub form_of : Context → Text → Form

abbrev pub read_form : FormLib → Incoming → Bool → Form × Incoming
read_form lib r true =
    let form = lib.form_of r.context r.body in (form, record r { body = []; form = some form })
read_form lib r false = let form = lib.form_of r.context [] in (form, record r { form = some form })

abbrev pub parse_unless : FormLib → Incoming → Option Form → Form × Incoming
parse_unless lib r (some form) = (form, r)
parse_unless lib r none = read_form lib r (lib.reads_body r.context)

unfoldable pub parse_form : FormLib → Incoming → Form × Incoming
parse_form lib r = parse_unless lib r r.form

-- `CallbackVerifier`: the error of `Verify`, if any, and the request that it leaves.
pub record Verifier : Type 0 where
  pub name : Text
  pub verify : Incoming → Option Text × Incoming

abbrev pub err_invalid_callback_sign : Text
err_invalid_callback_sign = runes "invalid sign"

-- `Verify` of StaticUUMD5Verifier
unfoldable pub static_uu_verify :
    FormLib → (Text → Text) → List Text → Incoming → Option Text × Incoming
static_uu_verify lib digest keys r =
    let (form, r') = parse_form lib r in
    (
      if verify_uu_md5 digest (form_params form) keys then none else some err_invalid_callback_sign,
      r',
    )

abbrev pub static_uu_md5_verifier : FormLib → (Text → Text) → List Text → Verifier
static_uu_md5_verifier lib digest keys = record {
  name = runes "uu";
  verify = static_uu_verify lib digest keys;
}

-- `FuncVerifier`; `none` is a nil function.
abbrev pub func_verify :
    Option (Incoming → Option Text × Incoming) → Incoming → Option Text × Incoming
func_verify none r = (some err_invalid_callback_sign, r)
func_verify (some f) r = f r

abbrev pub func_verifier : Text → Option (Incoming → Option Text × Incoming) → Verifier
func_verifier provider f = record {
  name = if is_empty provider then runes "func" else provider;
  verify = func_verify f;
}

-- The handlers behind are called with a request, or the chain is aborted with a status and a body.
pub data Answer : Type 0 where
  passed : Incoming → Answer
  refused : ℕ → Json → Incoming → Answer

-- `CallbackRejectWriter`, with the provider and the error.
abbrev pub RejectWriter : Type 0
RejectWriter = Incoming → Text → Text → Answer

abbrev pub default_callback_reject : RejectWriter
default_callback_reject r provider error =
    refused 401
      (obj (field (runes "error") (str error) (field (runes "provider") (str provider) end))) r

abbrev pub uu_reject_writer : RejectWriter
uu_reject_writer r provider error =
    refused 401
      (obj (
        field (runes "return_code") (str (runes "fail"))
          (field (runes "return_msg") (str (runes "invalid sign")) end)))
      r

-- `CallbackAuthOption`s are applied in order, a nil one not at all; the last writer is used.
unfoldable pub chosen_reject : RejectWriter → List (Option RejectWriter) → RejectWriter
chosen_reject w [] = w
chosen_reject w (none ∷ opts) = chosen_reject w opts
chosen_reject w (some w' ∷ opts) = chosen_reject w' opts

abbrev pub after_verify : RejectWriter → Text → Option Text × Incoming → Answer
after_verify reject name (none, r) = passed r
after_verify reject name (some error, r) = reject r name error

-- `CallbackAuth`; a nil verifier is `none`.
unfoldable pub callback_auth : Option Verifier → List (Option RejectWriter) → Incoming → Answer
callback_auth none opts r =
    chosen_reject default_callback_reject opts r (runes "callback") err_invalid_callback_sign
callback_auth (some v) opts r =
    after_verify (chosen_reject default_callback_reject opts) v.name (v.verify r)
