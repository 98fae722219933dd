-- ===== src/Login/Tests.antt =====
-- Requests of user_test.go and tenant_test.go, and the theorems on logins at concrete requests.
use middle.Prelude.{true, [], some, ◌≡◌, ◌≢◌, ◌↔◌, refl}
use middle.Text.{runes, trim_space}
use middle.Http.{Context, get, set, merchant_id, x_tenant_id, x_merchant_id, x_gateway_token}
use middle.Tenant.{
  request_admin_host, hostname_only, is_super_admin_host, can_switch_merchant, switched_merchant_id,
}
use middle.Login.{star, is_super_admin, login_runs, write_into_header}
use middle.Login.Isolation.{
  IsBoundTo, write_into_header-IsBoundTo, write_into_header-merchant_id,
  write_into_header_no_merchant, write_into_header_gateway,
}
use middle.Login.Switch.{
  IsConsole, MaySwitch, is_super_admin_host_iff, can_switch_merchant_iff,
  is_super_admin-write_into_header_iff, write_into_header_switch, write_into_header_view_all,
}
use middle.Fixtures.{no_headers, forged, request, login, config, net}

ports :
    (hostname_only (runes " Super.Example.com:8080 ") ≡ runes "super.example.com")
    × (hostname_only (runes "[::1]:80") ≡ runes "::1")
    × (hostname_only (runes "::1") ≡ runes "::1")
unfolding login_runs
ports = (refl, refl, refl)

abbrev attack : Context
attack = request "shop.example.com" forged

write_into_header-IsBoundTo_example :
    IsBoundTo
      (trim_space (runes " tenant-a "))
      (write_into_header net config (login " tenant-a ") true attack)
unfolding login_runs
write_into_header-IsBoundTo_example =
    write_into_header-IsBoundTo net config (login " tenant-a ") attack refl (λ e. cc)

write_into_header-merchant_id_instance :
    get (write_into_header net config (login "tenant-a") true attack).headers merchant_id
    ≡ trim_space (runes "tenant-a")
unfolding login_runs
write_into_header-merchant_id_instance =
    write_into_header-merchant_id net config (login "tenant-a") attack refl (λ e. cc) (λ e. cc)

write_into_header_no_merchant_example :
    IsBoundTo [] (write_into_header net config (login "") true attack)
    × (get (write_into_header net config (login "") true attack).headers merchant_id
        ≡ get attack.headers merchant_id)
unfolding login_runs
write_into_header_no_merchant_example =
    write_into_header_no_merchant net config (login "") attack refl refl refl

abbrev vouched : Context
vouched = request "shop.example.com" (set forged x_gateway_token (runes "gw-secret"))

write_into_header_gateway_example :
    IsBoundTo (runes "victim") (write_into_header net config (login "") true vouched)
    × (runes "victim" ≢ []
        → runes "victim" ≢ star
        → get (write_into_header net config (login "") true vouched).headers merchant_id
          ≡ runes "victim")
unfolding login_runs
write_into_header_gateway_example =
    write_into_header_gateway net config (login "") vouched refl refl refl

is_super_admin_host_iff_instance :
    (is_super_admin_host config (runes "SUPER.example.com:443") ≡ true)
    ↔ IsConsole config (runes "SUPER.example.com:443")
is_super_admin_host_iff_instance = is_super_admin_host_iff config (runes "SUPER.example.com:443")

can_switch_merchant_iff_instance :
    (can_switch_merchant config (login "st") ≡ true) ↔ MaySwitch config (login "st")
can_switch_merchant_iff_instance = can_switch_merchant_iff config (login "st")

abbrev console : Context
console = request "super.example.com:8812" (set no_headers x_merchant_id (runes "tenant-b"))

is_super_admin-write_into_header_iff_example :
    (is_super_admin (write_into_header net config (login "st") true console) ≡ true) ↔ (
      (true ≡ true)
      × IsConsole config (request_admin_host net config console)
      × MaySwitch config (login "st"))
is_super_admin-write_into_header_iff_example =
    is_super_admin-write_into_header_iff net config (login "st") console true

write_into_header_switch_instance :
    (get (write_into_header net config (login "st") true console).headers x_tenant_id
      ≡ switched_merchant_id console)
    × ((write_into_header net config (login "st") true console).values.merchant
        ≡ some (switched_merchant_id console))
unfolding login_runs
write_into_header_switch_instance =
    write_into_header_switch net config (login "st") console refl (λ e. cc) (λ e. cc)

abbrev all_console : Context
all_console = request "super.example.com:8812" (set no_headers x_merchant_id (runes "*"))

write_into_header_view_all_instance :
    (get (write_into_header net config (login "st") true all_console).headers x_tenant_id ≡ [])
    × ((write_into_header net config (login "st") true all_console).values.merchant ≡ some [])
    × ((write_into_header net config (login "st") true all_console).values.namespace ≡ some star)
unfolding login_runs
write_into_header_view_all_instance =
    write_into_header_view_all net config (login "st") all_console refl (λ e. cc) refl
