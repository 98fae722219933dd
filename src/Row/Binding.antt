-- ===== src/Row/Binding.antt =====
-- The row of a request is for the merchant of its session.
use middle.Prelude.{true, false, List, [], Option, ◌≡◌, ◌≢◌, ◌⊎◌, ℕ}
use middle.Text.{runes, trim_space}
use middle.Text.Utf8.{runes_of}
use middle.Http.{Context}
use middle.Config.{Config, Net}
use middle.User.{LoginInfo}
use middle.Login.{allow_switch, write_into_header}
use middle.Usage.{skip_usage_merchant}
use middle.Oplog.{merchant_from_before}
use middle.BodyFields.{extract_body_fields}
use middle.Quota.Binding.{row_merchant-write_into_header}
use middle.Uri.{Url}
use middle.Row.{Logged, Now}
use middle.Row.Operation.{Env, decoded, decoded_before, parse_operation_fields, operation_model}

-- Behind the session of a login that has its own merchant, not a shared one, and may not switch, the
-- row of a request is for that merchant, whatever its headers, its parameters and its body say; or
-- it is the row of a deletion, for the merchant of the document before it, which is no shared one.
pub operation_model-write_into_header :
    (net : Net) (cfg : Config) (l : LoginInfo) (c : Context) (env : Env) (now : Now)
    (logged : Logged) (url : Option (Url (env.urls.Rest))) (payload : List ℕ)
    → allow_switch net cfg l c true ≡ false
    → trim_space l.merchant_id ≢ []
    → skip_usage_merchant (trim_space l.merchant_id) ≡ false
    → logged.http ≡ write_into_header net cfg l true c
    → let f = (operation_model env now logged url payload).fields in
      (f.merchant_id ≡ trim_space l.merchant_id)
      ⊎ ((f.action ≡ runes "delete")
          × (f.merchant_id ≡ merchant_from_before (decoded_before env f.before))
          × (skip_usage_merchant (merchant_from_before (decoded_before env f.before)) ≡ false))
unfolding operation_model parse_operation_fields
operation_model-write_into_header net cfg l c env now logged url payload denied has own behind =
    rw behind (
      row_merchant-write_into_header net cfg l c denied has own
        (extract_body_fields (decoded env (runes_of payload))).merchant_id _ _)
