-- ===== src/User/Token/Tests.antt =====
-- A token of a super-admin, for a library that knows one document.
use middle.Prelude.{true, some, ◌≡◌, refl, []}
use middle.Text.{runes}
use middle.Json.{obj}
use middle.User.{LoginInfo}
use middle.User.Token.{TokenLib, token_fields, dump_login_info, load}
use middle.User.Token.Laws.{KeepsSecret, load-KeepsSecret, load-dump_login_info}
use middle.Fixtures.{login}

abbrev admin : LoginInfo
admin = record (login "st") { super_admin = true; opt_secret = runes "s3cret" }

abbrev lib : TokenLib
lib = record { encode = λ v. []; decode = λ s. some (obj (token_fields admin)) }

load-KeepsSecret_instance : KeepsSecret [] (load lib (runes "x") (login "m"))
load-KeepsSecret_instance = load-KeepsSecret lib (runes "x") (login "m")

load-dump_login_info_example :
    load lib (dump_login_info lib admin) (login "m") ≡ some (record admin { opt_secret = [] })
load-dump_login_info_example = load-dump_login_info lib admin (login "m") refl refl
