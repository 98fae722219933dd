-- ===== src/Auth.antt =====
-- jwt.go: the session cookie, the login that it carries, and the second factor.
pub mod Sound
pub mod Access
mod Tests
use middle.Prelude.{
  Bool, true, false, ◌&&◌, ◌||◌, not, List, [], ◌∷◌, Option, none, some, any, ◌≡◌, if◌then◌else◌, ℕ,
}
use middle.Text.{Text, runes, is_empty, ◌==◌, trim_space}
use middle.Http.{Context, Outcome, next, abort, get, x_totp_code}
use middle.Config.{Config, Net}
use middle.User.{LoginInfo, load_from_header}
use middle.Login.{write_into_header}

-- What golang-jwt gives of a token: the family and the name of its signing method, `Valid`, and
-- the issuer of its claims.
pub record Token : Type 0 where
  pub is_hmac : Bool
  pub alg : Text
  pub valid : Bool
  pub issuer : Text

abbrev pub Key : Type 0
Key = List ℕ

-- golang-jwt, which is not part of the repository. `ParseWithClaims` on the text of a token asks
-- `key_of` for the key of the token that it has read, under the allowed methods. The two laws are
-- its documentation: it succeeds only if the method is an allowed one, the key function returned a
-- key, and the signature of the text is right for that key.
pub record JwtLib : Type 1 where
  pub parse : (Token → Option Key) → List Text → Text → Option Token
  pub IsSigned : Text → Key → Type 0
  pub parse_method :
      (key_of : Token → Option Key) (methods : List Text) (s : Text) (t : Token)
      → parse key_of methods s ≡ some t
      → any (λ m. m == t.alg) methods ≡ true
  pub parse_signed :
      (key_of : Token → Option Key) (methods : List Text) (s : Text) (t : Token)
      → parse key_of methods s ≡ some t
      → (k : Key) × (key_of t ≡ some k) × IsSigned s k

abbrev pub hmac_methods : List Text
hmac_methods = runes "HS256" ∷ runes "HS384" ∷ runes "HS512" ∷ []

-- The key function of `parseJWTToken`.
abbrev pub hmac_key : Key → Token → Option Key
hmac_key key t = if t.is_hmac then some key else none

-- `setVerifiedUserID`: the key of the gin context and the value of the request context.
unfoldable pub set_verified_user_id : Context → Text → Context
set_verified_user_id c uid = record c {
  keys = record (c.keys) { verified_user = some uid };
  values = record (c.values) { verified_user = some uid };
}

unfoldable pub verified_user_id : Context → Text
verified_user_id c = elim c.keys.verified_user [
  | some s ↦ s
  | none ↦ elim c.values.verified_user [ some s ↦ s | none ↦ [] ]
]

-- `getTOTPCode`
unfoldable pub get_totp_code : Context → Text
get_totp_code c =
    let code = get c.headers x_totp_code in if is_empty code then c.query_code else code

unfoldable pub parse_jwt_token : JwtLib → Text → Key → Option Token
parse_jwt_token lib cookie key =
    if is_empty key then none else lib.parse (hmac_key key) hmac_methods cookie

-- `load` is `LoginInfo.Load` on the issuer (base64 of JSON, `none` for its errors).
unfoldable pub extract_claims : (Text → Option LoginInfo) → Token → Option LoginInfo
extract_claims load t = if t.valid then load t.issuer else none

module _ (net : Net) (cfg : Config) (lib : JwtLib) (load : Text → Option LoginInfo) where
  -- `checkAuth`, and `JWTMiddleware` around it.
  unfoldable pub check_auth : Key → Context → Outcome
  check_auth key c = elim c.jwt_cookie [
    | none ↦ abort 401 c
    | some cookie ↦ if is_empty cookie then abort 401 c else elim (parse_jwt_token lib cookie key) [
      | none ↦ abort 401 c
      | some token ↦ elim (extract_claims load token) [
        | none ↦ abort 401 c
        | some l ↦ next (set_verified_user_id (write_into_header net cfg l true c) l.user_id)
      ]
    ]
  ]

-- `MerchantBindMiddleware`: the login is read from the request's own headers, unverified.
unfoldable pub merchant_bind : Net → Config → Context → Outcome
merchant_bind net cfg c = next (write_into_header net cfg (load_from_header c) false c)

module _ (lib : JwtLib) (load : Text → Option LoginInfo) where
  -- `SecondValidateMiddleware`. `resolve` is `resolveOTPSecret` (`none` for its errors) and
  -- `validate` is `totp.Validate`, which is not part of the repository.
  unfoldable pub second_validate :
      (LoginInfo → Text → Option Text) → (Text → Text → Bool) → Key → Context → Outcome
  second_validate resolve validate key c =
      if is_empty (get_totp_code c) then abort 400 c else elim c.jwt_cookie [
        | none ↦ abort 401 c
        | some cookie ↦
            if is_empty cookie then abort 401 c else elim (parse_jwt_token lib cookie key) [
              | none ↦ abort 401 c
              | some token ↦ elim (extract_claims load token) [
                | none ↦ abort 401 c
                | some l ↦ elim (resolve l token.issuer) [
                  | none ↦ abort 403 c
                  | some secret ↦
                      if is_empty secret
                      then abort 403 c
                      else if validate (get_totp_code c) secret
                      then next c
                      else abort 403 c
                ]
              ]
            ]
      ]
