-- ===== src/Bearer/Laws.antt =====
-- What a bearer token is let through with, and for which tenant.
use middle.Prelude.{
  Bool, true, false, not, ◌&&◌, [], some, ◌≡◌, ◌≢◌, ◌⊎◌, inl, inr, arith, Bool-cases, Option-cases,
  Empty-cases, if◌then◌else◌,
}
use middle.Text.{Text, is_empty, trim_space, ◌==◌}
use middle.Text.Equality.{eq_iff}
use middle.Text.Trim.{trim_space_idem, trim_space-nil}
use middle.Http.{
  Context, Headers, next, get, x_tenant_id, x_merchant_id, merchant_id, authorization,
}
use middle.Config.{Config}
use middle.Gateway.{trust_tenant_header, from_gateway}
use middle.Login.{star}
use middle.Auth.{Token, Key, hmac_methods, hmac_key}
use middle.Bearer.{
  Claims, ParseClaims, bearer_token, no_star, claimed_tenant, bind_tenant, check_claims,
  jwt_auth_middleware,
}

-- The tenant that a request's own header asks for.
abbrev pub asked_tenant : Headers → Text
asked_tenant hs = no_star (trim_space (get hs x_tenant_id))

-- The request goes on for tenant `id`: that of the token, which no header contradicts; or, for a
-- token with no tenant, the one that the header asks for if it is trusted, and none if it is not.
pub data IsTenant (asked : Text) (trusted : Bool) (claimed id : Text) : Type 0 where
  of_token :
      claimed ≢ []
      → id ≡ claimed
      → (asked ≡ []) ⊎ (asked ≡ claimed)
      → IsTenant asked trusted claimed id
  of_gateway : claimed ≡ [] → trusted ≡ true → id ≡ asked → IsTenant asked trusted claimed id
  none_given : claimed ≡ [] → trusted ≡ false → id ≡ [] → IsTenant asked trusted claimed id

-- What `c'` says of its account and tenant, after the headers `hs`.
pub record IsBound (hs : Headers) (c' : Context) (account id : Text) : Type 0 where
  pub context_merchant : c'.values.merchant ≡ some id
  pub context_account : c'.values.account ≡ some account
  pub tenant_header : asked_tenant c'.headers ≡ id
  pub no_switch : get c'.headers x_merchant_id ≡ []
  pub merchant_header : get c'.headers merchant_id ≡ get hs merchant_id

no_star-trim : (s : Text) → no_star (trim_space (no_star (trim_space s))) ≡ no_star (trim_space s)
no_star-trim s = ground (arith, eq_iff (trim_space s) star, trim_space_idem s, trim_space-nil)

module _ (cfg : Config) (account tenant : Text) (c c' : Context)
    (passed : bind_tenant cfg account tenant c ≡ next c') where
  bind_tenant_agrees :
      tenant ≢ [] → (asked_tenant c.headers ≡ []) ⊎ (asked_tenant c.headers ≡ tenant)
  unfolding bind_tenant
  bind_tenant_agrees has = ground (arith, eq_iff tenant (asked_tenant c.headers))

  -- The tenant that the branches choose.
  abbrev bound_id : Text
  bound_id =
      if is_empty tenant && not (is_empty (asked_tenant c.headers)) && trust_tenant_header cfg c
      then asked_tenant c.headers
      else tenant

  bound_merchant_header : get c'.headers merchant_id ≡ get c.headers merchant_id
  unfolding bind_tenant
  bound_merchant_header = ground arith

  bound_tenant_header : no_star (trim_space tenant) ≡ tenant → asked_tenant c'.headers ≡ bound_id
  unfolding bind_tenant
  bound_tenant_header fixed = ground (
    arith,
    eq_iff (trim_space (get c.headers x_tenant_id)) star,
    no_star-trim (get c.headers x_tenant_id),
    trim_space-nil,
  )

  bind_tenant-IsBound : no_star (trim_space tenant) ≡ tenant → IsBound c.headers c' account bound_id
  unfolding bind_tenant
  bind_tenant-IsBound fixed = record {
    context_merchant = ground arith;
    context_account = ground arith;
    tenant_header = bound_tenant_header fixed;
    no_switch = ground arith;
    merchant_header = bound_merchant_header;
  }

  bind_tenant-IsTenant :
      IsTenant (asked_tenant c.headers) (trust_tenant_header cfg c) tenant bound_id
  bind_tenant-IsTenant = elim (Empty-cases tenant) [
    | inl blank ↦ elim (Bool-cases (trust_tenant_header cfg c)) [
      | inl trust ↦ of_gateway blank trust (ground arith)
      | inr wary ↦ none_given blank wary (ground arith)
    ]
    | inr has ↦ of_token has (ground arith) (bind_tenant_agrees has)
  ]

claimed_tenant_fixed :
    (claims : Claims) → no_star (trim_space (claimed_tenant claims)) ≡ claimed_tenant claims
unfolding claimed_tenant ◌==◌
claimed_tenant_fixed claims = elim (Option-cases claims.mid) [
  | inl missing ↦ rw (missing, trim_space-nil)
  | inr (mid, found) ↦ rw found (no_star-trim mid)
]

-- What the claims of a request must hold for it to be let through to `c'`.
pub record IsAccepted (cfg : Config) (claims : Claims) (c c' : Context) : Type 0 where
  pub account : Text
  pub id : Text
  pub subject : claims.sub ≡ some account
  pub account_given : account ≢ []
  pub bound : IsBound c.headers c' account id
  pub tenant :
      IsTenant (asked_tenant c.headers) (trust_tenant_header cfg c) (claimed_tenant claims) id

-- The context that the last of the claims is put into.
abbrev with_claims : Context → Text → Text → Text → Text → Context
with_claims c account iss aud jti = record c {
  keys = record (c.keys) {
    account_id = some account;
    iss = some iss;
    aud = some aud;
    jti = some jti;
  };
}

check_claims_passed :
    (cfg : Config) (claims : Claims) (c c' : Context)
    → check_claims cfg claims c ≡ next c'
    → (account iss aud jti : Text) × (claims.sub ≡ some account)
      × (account ≢ [])
      × (bind_tenant cfg account (claimed_tenant claims) (with_claims c account iss aud jti)
          ≡ next c')
unfolding check_claims
check_claims_passed cfg claims c c' passed = elim (Option-cases claims.sub) [
  | inl bad ↦ absurd (ground arith)
  | inr (account, subject) ↦ elim (Option-cases claims.iss) [
    | inl bad ↦ absurd (ground arith)
    | inr (iss, e1) ↦ elim (Option-cases claims.aud) [
      | inl bad ↦ absurd (ground arith)
      | inr (aud, e2) ↦ elim (Option-cases claims.jti) [
        | inl bad ↦ absurd (ground arith)
        | inr (jti, e3) ↦ (account, iss, aud, jti, subject, ground arith, ground arith)
      ]
    ]
  ]
]

check_claims-IsAccepted :
    (cfg : Config) (claims : Claims) (c c' : Context)
    → check_claims cfg claims c ≡ next c'
    → IsAccepted cfg claims c c'
unfolding trust_tenant_header from_gateway
check_claims-IsAccepted cfg claims c c' passed =
    let (account, iss, aud, jti, subject, given, bound) =
      check_claims_passed cfg claims c c' passed in
    let c1 : Context = with_claims c account iss aud jti in
    record {
      account = account;
      id = bound_id cfg account (claimed_tenant claims) c1 c' bound;
      subject = subject;
      account_given = given;
      bound =
          bind_tenant-IsBound cfg account (claimed_tenant claims) c1 c' bound
            (claimed_tenant_fixed claims);
      tenant = bind_tenant-IsTenant cfg account (claimed_tenant claims) c1 c' bound;
    }

-- A request that `JWTAuthMiddleware` passes on has a bearer token that the library parses under the
-- HMAC key and finds valid, with a subject that is the account of the context; its tenant is
-- chosen as `IsTenant` says, in the header and the context alike, and X-Merchant-ID is gone.
pub jwt_auth_middleware_sound :
    (cfg : Config) (parse : ParseClaims) (secret : Key) (c c' : Context)
    → jwt_auth_middleware cfg parse secret c ≡ next c'
    → (t : Text) × (parsed : Token) × (claims : Claims) × (bearer_token
          (get c.headers authorization)
        ≡ some t)
      × (parse (hmac_key secret) hmac_methods t ≡ some (parsed, claims))
      × (parsed.valid ≡ true)
      × IsAccepted cfg claims c c'
unfolding jwt_auth_middleware
jwt_auth_middleware_sound cfg parse secret c c' passed =
    elim (Option-cases (bearer_token (get c.headers authorization))) [
      | inl bad ↦ absurd (ground arith)
      | inr (t, found) ↦ elim (Option-cases (parse (hmac_key secret) hmac_methods t)) [
        | inl bad ↦ absurd (ground arith)
        | inr (both, read) ↦ (
          t,
          both.0,
          both.1,
          found,
          read,
          ground arith,
          check_claims-IsAccepted cfg both.1 c c' (ground arith),
        )
      ]
    ]
