-- ===== src/Bearer.antt =====
-- JWTAuthMiddleware.go: bearer tokens of apps and of the open API.
pub mod Laws
mod Tests
use middle.Prelude.{
  Bool, true, false, ◌&&◌, ◌||◌, not, List, [], ◌∷◌, Option, none, some, if◌then◌else◌,
}
use middle.Text.{Text, runes, is_empty, ◌==◌, trim_space, cut}
use middle.Http.{
  Context, Keys, Values, Headers, Outcome, next, abort, get, set, del, authorization, x_tenant_id,
  x_merchant_id,
}
use middle.Config.{Config}
use middle.Gateway.{trust_tenant_header}
use middle.Login.{star}
use middle.Auth.{Token, Key, hmac_methods, hmac_key}

-- The claims of a bearer token that the program looks at: `some` where the claim is a string.
pub record Claims : Type 0 where
  pub sub : Option Text
  pub iss : Option Text
  pub aud : Option Text
  pub jti : Option Text
  pub mid : Option Text

-- `jwt.ParseWithClaims` into `MapClaims`; golang-jwt is not part of the repository.
abbrev pub ParseClaims : Type 0
ParseClaims = (Token → Option Key) → List Text → Text → Option (Token × Claims)

-- The token of "Bearer token": `SplitN(header, " ", 2)` and its tests.
unfoldable pub bearer_token : Text → Option Text
bearer_token header = elim (cut b' ' header) [
  | none ↦ none
  | some (scheme, t) ↦ if scheme == runes "Bearer" then some t else none
]

abbrev pub no_star : Text → Text
no_star t = if t == star then [] else t

unfoldable pub claimed_tenant : Claims → Text
claimed_tenant claims = no_star (elim claims.mid [ none ↦ [] | some mid ↦ trim_space mid ])

-- From the tenant of the token on: the header is compared, believed or dropped.
unfoldable pub bind_tenant : Config → Text → Text → Context → Outcome
bind_tenant cfg account tenant c =
    let header = no_star (trim_space (get c.headers x_tenant_id)) in
    let dropped = is_empty tenant && not (is_empty header) && not (trust_tenant_header cfg c) in
    let id =
      if is_empty tenant && not (is_empty header) && trust_tenant_header cfg c
      then header
      else tenant in
    let hs1 = if dropped then del c.headers x_tenant_id else c.headers in
    let hs2 = if is_empty id then hs1 else set hs1 x_tenant_id id in
    if not (is_empty tenant) && not (is_empty header) && not (tenant == header)
    then abort 403 c
    else next (record c {
      headers = del hs2 x_merchant_id;
      values = record (c.values) { merchant = some id; account = some account };
    })

-- The claims that must be there, in order; each is put into the keys of the gin context before the
-- next is looked at.
unfoldable pub check_claims : Config → Claims → Context → Outcome
check_claims cfg claims c = elim claims.sub [
  | none ↦ abort 401 c
  | some account ↦
      if is_empty account
      then abort 401 c
      else let c1 = record c { keys = record (c.keys) { account_id = some account } } in
        elim claims.iss [
          | none ↦ abort 401 c1
          | some iss ↦
              let c2 = record c1 { keys = record (c1.keys) { iss = some iss } } in
              elim claims.aud [
                | none ↦ abort 401 c2
                | some aud ↦
                    let c3 = record c2 { keys = record (c2.keys) { aud = some aud } } in
                    elim claims.jti [
                      | none ↦ abort 401 c3
                      | some jti ↦
                          bind_tenant cfg account (claimed_tenant claims)
                            (record c3 { keys = record (c3.keys) { jti = some jti } })
                    ]
              ]
        ]
]

unfoldable pub jwt_auth_middleware : Config → ParseClaims → Key → Context → Outcome
jwt_auth_middleware cfg parse secret c =
    let header = get c.headers authorization in
    if is_empty header then abort 401 c else elim (bearer_token header) [
      | none ↦ abort 401 c
      | some t ↦ elim (parse (hmac_key secret) hmac_methods t) [
        | none ↦ abort 401 c
        | some (parsed, claims) ↦
            if not parsed.valid then abort 401 c else check_claims cfg claims c
      ]
    ]

-- Named on the `unfolding` line of a test, it opens every function above.
unfoldable pub bearer_runs : Unit {0}
unfolding bearer_token claimed_tenant bind_tenant check_claims jwt_auth_middleware
bearer_runs = tt
