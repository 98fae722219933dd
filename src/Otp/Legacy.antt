-- ===== src/Otp/Legacy.antt =====
-- otp.go: legacyOTPSecret, the secret that a token of an old version carries.
use middle.Prelude.{[], Option, none, some, ◌≡◌, refl, Bool-cases, inl, inr, if◌then◌else◌}
use middle.Text.{Text, runes, equal_fold, text_runs}
use middle.Json.{Json, null, bool, num, str, arr, obj, Fields, end, field}
use middle.User.{LoginInfo}
use middle.User.Token.{TokenLib, token_fields, dump_login_info}

-- A string is taken, nil is passed over, and anything else is an error.
abbrev pub os_value : Json → Text → Option Text
os_value (str s) os = some s
os_value null os = some os
os_value (bool b) os = none
os_value (num n) os = none
os_value (arr xs) os = none
os_value (obj fs) os = none

abbrev pub then_os : Option Text → (Text → Option Text) → Option Text
then_os none k = none
then_os (some os) k = k os

-- How json fills `struct{ OS string }`: the last key that is "os", without regard to case, counts.
unfoldable pub os_field : Fields → Text → Option Text
os_field end os = some os
os_field (field k v rest) os =
    then_os (if equal_fold k (runes "os") then os_value v os else some os)
      (λ os'. os_field rest os')

abbrev pub os_of : Option Text → Text
os_of none = []
os_of (some os) = os

abbrev pub decoded_secret : Option Json → Text
decoded_secret (some (obj fs)) = os_of (os_field fs [])
decoded_secret _ = []

unfoldable pub legacy_otp_secret : TokenLib → Text → Text
legacy_otp_secret lib payload = decoded_secret (lib.decode payload)

no_os : (l : LoginInfo) → os_field (token_fields l) [] ≡ some []
unfolding os_field text_runs
no_os l = elim (Bool-cases l.super_admin) [ inl e ↦ rw e refl | inr e ↦ rw e refl ]

-- If the library reads back what it wrote of a login, the token that DumpLoginInfo writes carries no
-- secret for the legacy way, whatever the secret of the login is.
pub legacy_otp_secret-dump_login_info :
    (lib : TokenLib) (l : LoginInfo)
    → lib.decode (lib.encode (obj (token_fields l))) ≡ some (obj (token_fields l))
    → legacy_otp_secret lib (dump_login_info lib l) ≡ []
unfolding legacy_otp_secret dump_login_info
legacy_otp_secret-dump_login_info lib l reads_back = rw (reads_back, no_os l) refl
