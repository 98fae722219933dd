-- ===== src/Login/Switch.antt =====
-- Super-admins: who may switch merchant, and what a switch does.
use middle.Prelude.{
  Bool, true, List, [], ◌∷◌, some, any, ◌≡◌, ◌≢◌, ◌↔◌, inl, inr, refl, arith, Bool-cases,
}
use middle.Text.{Text, trim_space, ◌==◌}
use middle.Text.Equality.{eq_iff}
use middle.Http.{Context, get, x_tenant_id}
use middle.Config.{Config, Net}
use middle.User.{LoginInfo}
use middle.Gateway.{trust_tenant_header}
use middle.Tenant.{
  hostname_only, local_super_host, request_admin_host, is_super_admin_host, can_switch_merchant,
  switched_merchant_id,
}
use middle.Login.{star, is_super_admin, allow_switch, initial, identity_values, write_into_header}
use middle.Login.Steps

-- The host is the configured console, or the local one where that is enabled.
pub data IsConsole (cfg : Config) (host : Text) : Type 0 where
  configured :
      hostname_only host ≢ []
      → hostname_only host ≡ hostname_only cfg.super_domain
      → IsConsole cfg host
  local :
      cfg.super_allow_localhost ≡ true → hostname_only host ≡ local_super_host → IsConsole cfg host

-- `m` is listed, up to surrounding spaces.
pub data IsListed (m : Text) : List Text → Type 0 where
  here : {x : Text} {xs : List Text} → trim_space x ≡ m → IsListed m (x ∷ xs)
  there : {x : Text} {xs : List Text} → IsListed m xs → IsListed m (x ∷ xs)

-- The token is marked, or its merchant is one of the configured ones.
pub data MaySwitch (cfg : Config) (l : LoginInfo) : Type 0 where
  marked : l.super_admin ≡ true → MaySwitch cfg l
  named :
      trim_space l.merchant_id ≢ []
      → trim_space cfg.super_merchant ≡ trim_space l.merchant_id
      → MaySwitch cfg l
  listed :
      trim_space l.merchant_id ≢ []
      → IsListed (trim_space l.merchant_id) cfg.super_merchants
      → MaySwitch cfg l

any-IsListed : (m : Text) (xs : List Text) → any (λ x. trim_space x == m) xs ≡ true → IsListed m xs
any-IsListed m [] h = cc
any-IsListed m (x ∷ xs) h = elim (Bool-cases (trim_space x == m)) [
  | inl e ↦ here ((eq_iff _ _).0 e)
  | inr e ↦ there (any-IsListed m xs (rw e at h))
]

IsListed-any : {m : Text} {xs : List Text} → IsListed m xs → any (λ x. trim_space x == m) xs ≡ true
IsListed-any (here e) = rw ((eq_iff _ _).1 e)
IsListed-any (there {x} i) = ground (arith, IsListed-any i)

IsConsole-of :
    (cfg : Config) (host : Text) → is_super_admin_host cfg host ≡ true → IsConsole cfg host
unfolding is_super_admin_host
IsConsole-of cfg host h = elim (Bool-cases (hostname_only host == hostname_only cfg.super_domain)) [
  | inl e ↦ configured (ground arith) ((eq_iff _ _).0 e)
  | inr e ↦ local (ground arith) ((eq_iff _ _).0 (ground arith))
]

-- Exactly the console's host names pass.
pub is_super_admin_host_iff :
    (cfg : Config) (host : Text) → (is_super_admin_host cfg host ≡ true) ↔ IsConsole cfg host
unfolding is_super_admin_host
is_super_admin_host_iff cfg host = (IsConsole-of cfg host, back)
  where
    back : IsConsole cfg host → is_super_admin_host cfg host ≡ true
    back (configured ne e) =
        ground (arith, eq_iff (hostname_only host) (hostname_only cfg.super_domain))
    back (local on e) = ground (arith, eq_iff (hostname_only host) local_super_host)

MaySwitch-of : (cfg : Config) (l : LoginInfo) → can_switch_merchant cfg l ≡ true → MaySwitch cfg l
unfolding can_switch_merchant
MaySwitch-of cfg l h = elim (Bool-cases l.super_admin) [
  | inl yes' ↦ marked yes'
  | inr plain ↦ elim (Bool-cases (trim_space cfg.super_merchant == trim_space l.merchant_id)) [
    | inl e ↦ named (ground arith) ((eq_iff _ _).0 e)
    | inr e ↦ listed (ground arith) (any-IsListed _ cfg.super_merchants (ground arith))
  ]
]

pub can_switch_merchant_iff :
    (cfg : Config) (l : LoginInfo) → (can_switch_merchant cfg l ≡ true) ↔ MaySwitch cfg l
unfolding can_switch_merchant
can_switch_merchant_iff cfg l = (MaySwitch-of cfg l, back)
  where
    back : MaySwitch cfg l → can_switch_merchant cfg l ≡ true
    back (marked m) = rw m
    back (named ne e) =
        ground (arith, eq_iff (trim_space cfg.super_merchant) (trim_space l.merchant_id))
    back (listed ne i) = ground (arith, IsListed-any i)

module _ (net : Net) (cfg : Config) (l : LoginInfo) (c : Context) where
  -- The context is marked as a super-admin's exactly if the login is verified, the request came to
  -- the console's host, and the login is one that may switch merchant.
  pub is_super_admin-write_into_header_iff :
      (verified : Bool)
      → (is_super_admin (write_into_header net cfg l verified c) ≡ true)
        ↔ ((verified ≡ true) × IsConsole cfg (request_admin_host net cfg c) × MaySwitch cfg l)
  unfolding allow_switch
  is_super_admin-write_into_header_iff verified =
      rw (Steps.write_into_header_super net cfg l c verified _ refl) (
        λ h. (
          ground arith,
          (is_super_admin_host_iff cfg _).0 (ground arith),
          (can_switch_merchant_iff cfg l).0 (ground arith),
        ),
        λ (v, console, may).
            rw
              (v, (is_super_admin_host_iff cfg _).1 console, (can_switch_merchant_iff cfg l).1 may),
      )

  module _ (allowed : allow_switch net cfg l c true ≡ true)
      (asks : switched_merchant_id c ≢ []) where
    abbrev trusted : Bool
    trusted = trust_tenant_header cfg c

    -- A super-admin that names a merchant works for that merchant.
    pub write_into_header_switch :
        switched_merchant_id c ≢ star
        → (get (write_into_header net cfg l true c).headers x_tenant_id ≡ switched_merchant_id c)
          × ((write_into_header net cfg l true c).values.merchant ≡ some (switched_merchant_id c))
    unfolding identity_values initial
    write_into_header_switch ne = (
      rw
          (
            Steps.write_into_header_headers net cfg l c true true allowed,
            (Steps.identity_headers_tenant l _).0,
          )
          (Steps.switch-x_tenant_id l (initial l c) (Steps.initial-tenant l c) trusted asks ne),
      rw
          (
            Steps.write_into_header_values net cfg l c true true allowed,
            Steps.switch-tenant l (initial l c) (Steps.initial-tenant l c) trusted asks ne,
          )
          (ground (arith, eq_iff (switched_merchant_id c) star)),
    )

    -- A super-admin that asks for "*" sees all merchants: no tenant, and the namespace "*".
    pub write_into_header_view_all :
        switched_merchant_id c ≡ star
        → (get (write_into_header net cfg l true c).headers x_tenant_id ≡ [])
          × ((write_into_header net cfg l true c).values.merchant ≡ some [])
          × ((write_into_header net cfg l true c).values.namespace ≡ some star)
    unfolding identity_values initial ◌==◌
    write_into_header_view_all e = (
      rw
          (
            Steps.write_into_header_headers net cfg l c true true allowed,
            (Steps.identity_headers_tenant l _).0,
          )
          (Steps.view_all-x_tenant_id l (initial l c) (Steps.initial-tenant l c) trusted asks e),
      rw
          (
            Steps.write_into_header_values net cfg l c true true allowed,
            Steps.view_all-tenant l (initial l c) (Steps.initial-tenant l c) trusted asks e,
          )
          refl,
      rw
          (
            Steps.write_into_header_values net cfg l c true true allowed,
            Steps.view_all-tenant l (initial l c) (Steps.initial-tenant l c) trusted asks e,
          )
          refl,
    )
