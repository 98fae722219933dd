-- ===== src/Auth/Access.antt =====
-- The session middleware followed by the merchant guard: who gets at whose documents.
use middle.Prelude.{true, Option, [], ◌≡◌, ◌≢◌, inl, inr, refl, Bool-cases, Empty-cases, ◌∙◌, false}
use middle.Text.{Text, trim_space}
use middle.Http.{Context, next}
use middle.Config.{Config, Net}
use middle.User.{LoginInfo}
use middle.Tenant.{request_admin_host}
use middle.Gateway.{trust_tenant_header}
use middle.Login.{is_super_admin, allow_switch, write_into_header}
use middle.Login.Steps
use middle.Login.Isolation.{write_into_header-IsBoundTo, write_into_header_blank}
use middle.Login.Switch.{IsConsole, MaySwitch, is_super_admin-write_into_header_iff}
use middle.TenantGuard.{owns, tenant_id}
use middle.TenantGuard.Isolation.{owns_iff}
use middle.Auth.{Key, JwtLib, set_verified_user_id, verified_user_id, check_auth}
use middle.Auth.Sound.{Carries, check_auth_cases}

-- Why a login may get at a document of `owner`.
pub data Entitled (net : Net) (cfg : Config) (c : Context) (l : LoginInfo) (owner : Text)
    : Type 0 where
  by_switch :
      IsConsole cfg (request_admin_host net cfg c) → MaySwitch cfg l → Entitled net cfg c l owner
  by_merchant :
      trim_space l.merchant_id ≢ []
      → trim_space owner ≡ trim_space l.merchant_id
      → Entitled net cfg c l owner
  by_trusted_header :
      trim_space l.merchant_id ≡ [] → trust_tenant_header cfg c ≡ true → Entitled net cfg c l owner

owns-set_verified_user_id :
    (c : Context) (uid owner : Text) → owns (set_verified_user_id c uid) owner ≡ owns c owner
unfolding owns tenant_id is_super_admin set_verified_user_id
owns-set_verified_user_id c uid owner = refl

verified_user_id-set_verified_user_id :
    (c : Context) (uid : Text) → verified_user_id (set_verified_user_id c uid) ≡ uid
unfolding verified_user_id set_verified_user_id
verified_user_id-set_verified_user_id c uid = refl

module _ (net : Net) (cfg : Config) (l : LoginInfo) (c : Context) (owner : Text)
    (owned : owns (write_into_header net cfg l true c) owner ≡ true) where
  denied-Entitled : allow_switch net cfg l c true ≡ false → Entitled net cfg c l owner
  unfolding tenant_id
  denied-Entitled denied =
      let plain = Steps.write_into_header_super net cfg l c true _ denied in
      let (some_tenant, ne, same) = (owns_iff _ owner plain).0 owned in
      elim (Empty-cases (trim_space l.merchant_id)) [
        | inl blank ↦ elim (Bool-cases (trust_tenant_header cfg c)) [
          | inl trust ↦ by_trusted_header blank trust
          | inr untrusted ↦
              absurd (some_tenant (write_into_header_blank net cfg l c denied blank untrusted))
        ]
        | inr has ↦
            by_merchant has
              (same ∙ (write_into_header-IsBoundTo net cfg l c denied has).tenant_header)
      ]

  owns-Entitled : Entitled net cfg c l owner
  owns-Entitled = elim (Bool-cases (allow_switch net cfg l c true)) [
    | inl allowed ↦
        let (v, console, may) =
          (is_super_admin-write_into_header_iff net cfg l c true).0
            (Steps.write_into_header_super net cfg l c true _ allowed) in
        by_switch console may
    | inr denied ↦ denied-Entitled denied
  ]

-- A request that `JWTMiddleware` passes on may touch a document of `owner` only if it carries a
-- login, signed with the key, that may switch on the console's host, or is a login of that owner,
-- or has no merchant on a request whose tenant header is trusted: one with a valid gateway token,
-- or any while the settings allow an unverified tenant.
pub check_auth-owns :
    (net : Net) (cfg : Config) (lib : JwtLib) (load : Text → Option LoginInfo) (key : Key)
    (c c' : Context) (owner : Text)
    → check_auth net cfg lib load key c ≡ next c'
    → owns c' owner ≡ true
    → (l : LoginInfo) × Carries lib load key c l
      × Entitled net cfg c l owner
      × (verified_user_id c' ≡ l.user_id)
check_auth-owns net cfg lib load key c c' owner passed owned =
    elim (check_auth_cases lib load key net cfg c) [
      | inl refused ↦ absurd (cc)
      | inr (l, carries, goes_on) ↦
          let same : c' ≡ set_verified_user_id (write_into_header net cfg l true c) l.user_id =
            cc in
          (
            l,
            carries,
            owns-Entitled net cfg l c owner (rw (same, owns-set_verified_user_id) at owned),
            rw same (verified_user_id-set_verified_user_id _ _),
          )
    ]
