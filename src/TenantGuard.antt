-- ===== src/TenantGuard.antt =====
-- tenantguard/tenant.go: the merchant of a request, and which documents it may touch.
pub mod Isolation
mod Tests
use middle.Prelude.{Bool, true, false, ◌&&◌, ◌||◌, not, [], if◌then◌else◌, ℕ}
use middle.Text.{Text, is_empty, ◌==◌, trim_space}
use middle.Http.{Context, Outcome, next, abort, get, x_tenant_id}
use middle.Login.{star, is_super_admin}

unfoldable pub tenant_id : Context → Text
tenant_id c = trim_space (get c.headers x_tenant_id)

unfoldable pub merchant : Context → Text
merchant c = let id = tenant_id c in if id == star then [] else id

unfoldable pub require : Context → Outcome
require c = if is_empty (merchant c) && not (is_super_admin c) then abort 403 c else next c

unfoldable pub owns : Context → Text → Bool
owns c owner =
    let t = tenant_id c in
    if is_empty t || t == star then is_super_admin c else trim_space owner == t

-- `Allow`: the handler goes on with the context, or the request is answered and aborted.
unfoldable pub allow : Context → Text → Outcome
allow c owner = if owns c owner then next c else abort 404 c

unfoldable pub super_only : Context → Outcome
super_only c = if is_super_admin c then next c else abort 403 c

-- Named on the `unfolding` line of a test, it opens every function above.
unfoldable pub guard_runs : Unit {0}
unfolding tenant_id merchant require owns allow super_only
guard_runs = tt
