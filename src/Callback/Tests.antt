-- ===== src/Callback/Tests.antt =====
-- The callbacks of callback_auth_test.go, with a digest that keeps its text.
use middle.Prelude.{true, false, [], ◌∷◌, none, some, ◌≡◌, ◌↔◌, refl, if◌then◌else◌}
use middle.Text.{Text, runes, ◌==◌, text_runs}
use middle.Text.Sort.{text_le, insert, sort_strings}
use middle.Callback.{
  Params, sign_key, signed_keys, joined, canonical_sorted_kv, sign_equal_constant_time, uu_md5_sign,
  try_keys, verify_uu_md5, Form, form_keys, form_params, FormLib, Incoming, parse_form,
  static_uu_verify, static_uu_md5_verifier, callback_auth, chosen_reject, passed,
}
use middle.Callback.Sorted.{swap, canonical_sorted_kv-Shuffled}
use middle.Callback.Sound.{IsGenuine, verify_uu_md5_iff}
use middle.Fixtures.{no_headers, request}

abbrev digest : Text → Text
digest s = s

abbrev values : Text → Text
values k =
    if k == runes "origin_id"
    then runes "o1"
    else if k == runes "state"
    then runes "10"
    else if k == sign_key
    then runes "origin_id=o1&state=10&key=SYS-KEY "
    else []

abbrev params : Params
params = record { keys = runes "state" ∷ sign_key ∷ runes "origin_id" ∷ []; value = values }

payload_sorted : canonical_sorted_kv params (runes "Sign" ∷ []) ≡ runes "origin_id=o1&state=10"
unfolding canonical_sorted_kv joined sort_strings insert text_le signed_keys text_runs
payload_sorted = refl

canonical_sorted_kv-Shuffled_example :
    canonical_sorted_kv (record { keys = runes "state" ∷ runes "a" ∷ []; value = values }) []
    ≡ canonical_sorted_kv (record { keys = runes "a" ∷ runes "state" ∷ []; value = values }) []
canonical_sorted_kv-Shuffled_example =
    canonical_sorted_kv-Shuffled values [] (runes "state" ∷ runes "a" ∷ [])
      (runes "a" ∷ runes "state" ∷ []) (swap (runes "state") (runes "a") [])

verified :
    (verify_uu_md5 digest params (runes " sys-key " ∷ []) ≡ true)
    × (verify_uu_md5 digest params (runes "wrong" ∷ []) ≡ false)
unfolding verify_uu_md5 try_keys uu_md5_sign sign_equal_constant_time canonical_sorted_kv joined
    sort_strings insert text_le signed_keys text_runs
verified = (refl, refl)

verify_uu_md5_iff_instance :
    (verify_uu_md5 digest params (runes " sys-key " ∷ []) ≡ true)
    ↔ IsGenuine digest params (runes " sys-key " ∷ [])
verify_uu_md5_iff_instance = verify_uu_md5_iff digest params (runes " sys-key " ∷ [])

-- A posted form, with its signature in the query.
abbrev form : Form
form = record {
  keys = runes "state" ∷ [];
  values = λ k. values k ∷ [];
  query_sign = runes "state=10&key=sys-key";
}

abbrev lib : FormLib
lib = record { reads_body = λ c. true; form_of = λ c body. form }

abbrev callback : Incoming
callback = record { context = request "x" no_headers; body = runes "state=10"; form = none }

abbrev drained : Incoming
drained = record callback { body = []; form = some form }

let_through :
    callback_auth (some (static_uu_md5_verifier lib digest (runes "sys-key" ∷ []))) [] callback
    ≡ passed drained
unfolding callback_auth chosen_reject static_uu_verify parse_form form_params form_keys
    verify_uu_md5 try_keys uu_md5_sign sign_equal_constant_time canonical_sorted_kv joined
    sort_strings insert text_le signed_keys text_runs
let_through = refl
