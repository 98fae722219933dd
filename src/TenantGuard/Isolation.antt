-- ===== src/TenantGuard/Isolation.antt =====
-- What the guards let through, alone and behind a login.
use middle.Prelude.{true, false, [], ◌≡◌, ◌≢◌, ◌↔◌, ◌⊎◌, arith}
use middle.Text.{◌==◌, Text, trim_space}
use middle.Text.Equality.{eq_iff}
use middle.Http.{Context, next, abort, ◌>>=◌}
use middle.Config.{Config, Net}
use middle.User.{LoginInfo}
use middle.Gateway.{trust_tenant_header}
use middle.Login.{star, is_super_admin, allow_switch, write_into_header}
use middle.Login.Isolation.{write_into_header-IsBoundTo, write_into_header_no_merchant}
use middle.TenantGuard.{tenant_id, merchant, require, owns, allow}

-- A request that is no super-admin's owns exactly the documents of its own merchant, and none if
-- its tenant is empty or "*".
pub owns_iff :
    (c : Context) (owner : Text)
    → is_super_admin c ≡ false
    → (owns c owner ≡ true)
      ↔ ((tenant_id c ≢ []) × (tenant_id c ≢ star) × (trim_space owner ≡ tenant_id c))
unfolding owns
owns_iff c owner plain = (
  λ h. ground (arith, eq_iff (tenant_id c) star, eq_iff (trim_space owner) (tenant_id c)),
  λ (ne, no_star, e).
      ground (arith, eq_iff (tenant_id c) star, eq_iff (trim_space owner) (tenant_id c)),
)

-- `Require` and `Allow` in a row let a request through only if it is a super-admin's or it has a
-- merchant, which owns the document; the context is passed on as it came.
pub require-allow_sound :
    (c c' : Context) (owner : Text)
    → (require c >>= λ d. allow d owner) ≡ next c'
    → (c' ≡ c) × ((is_super_admin c ≡ true) ⊎ ((merchant c ≢ []) × (trim_space owner ≡ merchant c)))
unfolding require allow owns merchant
require-allow_sound c c' owner h = (
  ground arith,
  ground (arith, eq_iff (tenant_id c) star, eq_iff (trim_space owner) (tenant_id c)),
)

module _ (net : Net) (cfg : Config) (l : LoginInfo) (c : Context)
    (denied : allow_switch net cfg l c true ≡ false) where
  -- Behind a login that may not switch and whose merchant is neither blank nor "*", a request owns
  -- exactly the documents of the login's merchant, whatever tenant or merchant its headers name.
  pub owns-write_into_header_iff :
      (owner : Text)
      → trim_space l.merchant_id ≢ []
      → trim_space l.merchant_id ≢ star
      → (owns (write_into_header net cfg l true c) owner ≡ true)
        ↔ (trim_space owner ≡ trim_space l.merchant_id)
  unfolding tenant_id
  owns-write_into_header_iff owner has ne =
      let b = write_into_header-IsBoundTo net cfg l c denied has in
      let (to, from) = owns_iff (write_into_header net cfg l true c) owner b.not_super in
      (λ h. rw (← b.tenant_header) ((to h).2), λ e. from (rw b.tenant_header (has, ne, e)))

  -- A login with no merchant, on a request whose tenant header is not trusted, is refused by
  -- `Require` and owns no document.
  pub require-write_into_header_no_merchant :
      l.merchant_id ≡ []
      → trust_tenant_header cfg c ≡ false
      → (require (write_into_header net cfg l true c)
          ≡ abort 403 (write_into_header net cfg l true c))
        × ((owner : Text) → owns (write_into_header net cfg l true c) owner ≡ false)
  unfolding tenant_id require owns merchant ◌==◌
  require-write_into_header_no_merchant empty untrusted =
      let (b, _) = write_into_header_no_merchant net cfg l c denied empty untrusted in
      (rw (b.tenant_header, b.not_super), λ owner. rw (b.tenant_header, b.not_super))
