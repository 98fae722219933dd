-- ===== src/Auth/Sound.antt =====
-- What `JWTMiddleware` and `SecondValidateMiddleware` guarantee of the requests that they pass on.
use middle.Prelude.{
  Bool, true, Option, some, [], ◌≡◌, ◌≢◌, ◌⊎◌, inl, inr, arith, Bool-cases, Option-cases,
}
use middle.Text.{Text, is_empty}
use middle.Http.{Context, next, abort}
use middle.Config.{Config, Net}
use middle.User.{LoginInfo}
use middle.Login.{write_into_header}
use middle.Auth.{
  Token, Key, JwtLib, hmac_methods, hmac_key, set_verified_user_id, parse_jwt_token, extract_claims,
  check_auth, get_totp_code, second_validate,
}

module _ (lib : JwtLib) (load : Text → Option LoginInfo) (key : Key) where
  -- The request carries a cookie that is signed with the key by an HMAC method, and its issuer
  -- holds the login `l`.
  pub record Carries (c : Context) (l : LoginInfo) : Type 0 where
    pub cookie : Text
    pub token : Token
    pub sent : c.jwt_cookie ≡ some cookie
    pub key_given : key ≢ []
    pub parsed : lib.parse (hmac_key key) hmac_methods cookie ≡ some token
    pub signed : lib.IsSigned cookie key
    pub hmac : token.is_hmac ≡ true
    pub valid : token.valid ≡ true
    pub loaded : load token.issuer ≡ some l

  parse_jwt_token_sound :
      (cookie : Text) (t : Token)
      → parse_jwt_token lib cookie key ≡ some t
      → (key ≢ [])
        × (lib.parse (hmac_key key) hmac_methods cookie ≡ some t)
        × lib.IsSigned cookie key
        × (t.is_hmac ≡ true)
  unfolding parse_jwt_token
  parse_jwt_token_sound cookie t h =
      let parsed : lib.parse (hmac_key key) hmac_methods cookie ≡ some t = ground arith in
      let (k, given, signed) = lib.parse_signed (hmac_key key) hmac_methods cookie t parsed in
      let same : k ≡ key = ground arith in (ground arith, parsed, rw same at signed, ground arith)

  extract_claims_sound :
      (t : Token) (l : LoginInfo)
      → extract_claims load t ≡ some l
      → (t.valid ≡ true) × (load t.issuer ≡ some l)
  unfolding extract_claims
  extract_claims_sound t l h = ground arith

  abbrev Carries-of :
      (c : Context) (cookie : Text) (t : Token) (l : LoginInfo)
      → c.jwt_cookie ≡ some cookie
      → parse_jwt_token lib cookie key ≡ some t
      → extract_claims load t ≡ some l
      → Carries c l
  Carries-of c cookie t l sent parsed claims =
      let (given, read, signed, hmac) = parse_jwt_token_sound cookie t parsed in
      let (valid, loaded) = extract_claims_sound t l claims in
      record {
        cookie = cookie;
        token = t;
        sent = sent;
        key_given = given;
        parsed = read;
        signed = signed;
        hmac = hmac;
        valid = valid;
        loaded = loaded;
      }

  -- Either the request is refused with 401, as it came, or it carries a login, and goes on with
  -- that login written into it and the login's user as its verified user.
  pub check_auth_cases :
      (net : Net) (cfg : Config) (c : Context)
      → (check_auth net cfg lib load key c ≡ abort 401 c)
        ⊎ ((l : LoginInfo) × Carries c l
            × (check_auth net cfg lib load key c
                ≡ next (set_verified_user_id (write_into_header net cfg l true c) l.user_id)))
  unfolding check_auth
  check_auth_cases net cfg c = elim (Option-cases c.jwt_cookie) [
    | inl missing ↦ inl (ground arith)
    | inr (cookie, sent) ↦ elim (Bool-cases (is_empty cookie)) [
      | inl blank ↦ inl (ground arith)
      | inr full ↦ elim (Option-cases (parse_jwt_token lib cookie key)) [
        | inl bad ↦ inl (ground arith)
        | inr (t, parsed) ↦ elim (Option-cases (extract_claims load t)) [
          | inl bad ↦ inl (ground arith)
          | inr (l, claims) ↦ inr (l, Carries-of c cookie t l sent parsed claims, ground arith)
        ]
      ]
    ]
  ]

  -- The second factor passes a request on only as it came, and only if the request carries a login
  -- and a code that is valid for a secret which the resolver gives for that login and the issuer of
  -- the token that holds it.
  pub second_validate_sound :
      (resolve : LoginInfo → Text → Option Text) (validate : Text → Text → Bool) (c c' : Context)
      → second_validate lib load resolve validate key c ≡ next c'
      → (c' ≡ c)
        × ((l : LoginInfo) × (carries : Carries c l) × ((secret : Text) × (resolve l
                  carries.token.issuer
                ≡ some secret)
              × (secret ≢ [])
              × (get_totp_code c ≢ [])
              × (validate (get_totp_code c) secret ≡ true)))
  unfolding second_validate
  second_validate_sound resolve validate c c' h = elim (Option-cases c.jwt_cookie) [
    | inl missing ↦ absurd (ground arith)
    | inr (cookie, sent) ↦ elim (Option-cases (parse_jwt_token lib cookie key)) [
      | inl bad ↦ absurd (ground arith)
      | inr (t, parsed) ↦ elim (Option-cases (extract_claims load t)) [
        | inl bad ↦ absurd (ground arith)
        | inr (l, claims) ↦ elim (Option-cases (resolve l t.issuer)) [
          | inl bad ↦ absurd (ground arith)
          | inr (secret, found) ↦ (
            ground arith,
            (
              l,
              Carries-of c cookie t l sent parsed claims,
              (secret, found, ground arith, ground arith, ground arith),
            ),
          )
        ]
      ]
    ]
  ]
