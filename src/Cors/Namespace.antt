-- ===== src/Cors/Namespace.antt =====
-- The namespace of the console's host does not outlive a login.
use middle.Prelude.{Bool, true, false, ◌&&◌, not, ◌≡◌, refl}
use middle.Text.{runes, ◌==◌}
use middle.Http.{Context}
use middle.Config.{Config, Net}
use middle.Tenant.{is_super_admin_host, request_admin_host}
use middle.User.{LoginInfo}
use middle.Login.{write_into_header, login_runs}
use middle.Cors.{with_star, with_namespace}

with_star-write_into_header :
    (net : Net) (cfg : Config) (l : LoginInfo) (verified b : Bool) (c : Context)
    → write_into_header net cfg l verified (with_star b c) ≡ write_into_header net cfg l verified c
unfolding login_runs
with_star-write_into_header net cfg l verified true c = refl
with_star-write_into_header net cfg l verified false c = refl

-- Whatever namespace CORSMiddleware has set, the context of a request is the same after the login
-- was written into it.
pub write_into_header-with_namespace :
    (net : Net) (cfg : Config) (l : LoginInfo) (verified : Bool) (c : Context)
    → write_into_header net cfg l verified (with_namespace net cfg c)
      ≡ write_into_header net cfg l verified c
unfolding with_namespace
write_into_header-with_namespace net cfg l verified c =
    with_star-write_into_header net cfg l verified
      (not (c.method == runes "OPTIONS") && is_super_admin_host cfg (request_admin_host net cfg c))
      c
