-- ===== src/TenantGuard/Tests.antt =====
-- Requests of tenant_test.go in tenantguard, and the theorems on the guards at concrete requests.
use middle.Prelude.{true, false, [], ◌≡◌, ◌≢◌, ◌↔◌, ◌⊎◌, refl}
use middle.Text.{runes, trim_space}
use middle.Http.{Context, next, abort, set, x_tenant_id, x_merchant_id}
use middle.Login.{star, is_super_admin, login_runs, write_into_header}
use middle.TenantGuard.{tenant_id, merchant, require, owns, super_only, guard_runs}
use middle.TenantGuard.Isolation.{owns_iff, require-allow_sound, owns-write_into_header_iff}
use middle.Fixtures.{no_headers, forged, request, login, config, net}

abbrev of_tenant : Context
of_tenant = request "shop.example.com" (set no_headers x_tenant_id (runes "a"))

guards :
    (owns of_tenant (runes "a") ≡ true)
    × (owns of_tenant (runes "b") ≡ false)
    × (require of_tenant ≡ next of_tenant)
    × (super_only of_tenant ≡ abort 403 of_tenant)
    × (merchant (request "x" (set no_headers x_merchant_id (runes "attacker"))) ≡ [])
unfolding guard_runs login_runs
guards = (refl, refl, refl, refl, refl)

owns_iff_instance : (owns of_tenant (runes "a ") ≡ true) ↔ (
    (tenant_id of_tenant ≢ [])
    × (tenant_id of_tenant ≢ star)
    × (trim_space (runes "a ") ≡ tenant_id of_tenant))
unfolding is_super_admin
owns_iff_instance = owns_iff of_tenant (runes "a ") refl

require-allow_sound_example :
    (of_tenant ≡ of_tenant)
    × ((is_super_admin of_tenant ≡ true)
        ⊎ ((merchant of_tenant ≢ []) × (trim_space (runes "a") ≡ merchant of_tenant)))
unfolding guard_runs login_runs
require-allow_sound_example = require-allow_sound of_tenant of_tenant (runes "a") refl

abbrev attack : Context
attack = request "shop.example.com" forged

owns-write_into_header_iff_example :
    (owns (write_into_header net config (login "tenant-a") true attack) (runes "victim") ≡ true)
    ↔ (trim_space (runes "victim") ≡ trim_space (runes "tenant-a"))
unfolding login_runs
owns-write_into_header_iff_example =
    owns-write_into_header_iff net config (login "tenant-a") attack refl (runes "victim") (λ e. cc)
      (λ e. cc)
