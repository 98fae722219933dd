-- ===== src/Fixtures.antt =====
-- Requests, logins and settings for the tests: those of user_test.go, tenant_test.go and
-- gateway_test.go where these have them.
use Prim.Native.String.{String}
use middle.Prelude.{
  true, false, List, [], ◌∷◌, Option, none, some, any, if◌then◌else◌, ◌≡◌, sym, Option-cases, inl,
  inr, arith, ◌&&◌,
}
use mathlib.Core.Path.{subst}
use middle.Text.{Text, runes, ◌==◌}
use middle.Text.Equality.{eq_iff}
use middle.Http.{Headers, Context, set, x_tenant_id, x_merchant_id, merchant_id}
use middle.Config.{Config, Net}
use middle.User.{LoginInfo}
use middle.Auth.{Token, Key, JwtLib}

abbrev pub no_headers : Headers
no_headers _ = []

-- The headers of a client that forges its tenant.
abbrev pub forged : Headers
forged =
    set (set (set no_headers x_tenant_id (runes "victim")) x_merchant_id (runes "victim"))
      merchant_id (runes "victim")

abbrev pub request : String → Headers → Context
request host hs = record {
  method = runes "GET";
  host = runes host;
  remote_addr = runes "192.0.2.1:1234";
  full_path = runes "/v1/hlj/products";
  url_path = runes "/v1/hlj/products";
  raw_query = [];
  query_code = [];
  jwt_cookie = none;
  raw_jwt_cookie = none;
  headers = hs;
  values = record {
    account = none;
    namespace = none;
    merchant = none;
    operator = none;
    verified_user = none;
  };
  keys = record {
    super_admin = none;
    verified_user = none;
    account_id = none;
    iss = none;
    aud = none;
    jti = none;
  };
}

abbrev pub login : String → LoginInfo
login merchant = record {
  namespace = runes "hlj";
  merchant_id = runes merchant;
  account_id = runes "acc-1";
  phone = [];
  user_id = runes "u-1";
  user_name = [];
  avatar = [];
  login_type = [];
  login_level = [];
  opt_secret = [];
  super_admin = false;
}

abbrev pub config : Config
config = record {
  super_domain = runes "super.example.com";
  super_allow_localhost = false;
  super_merchants = runes " st " ∷ [];
  super_merchant = [];
  trusted_proxies = [];
  gateway_token = runes "gw-secret";
  gateway_allow_unverified = false;
  rpc_auth_token = runes " rpc-secret ";
  rpc_token = [];
  rpc_allow_unauthenticated = false;
  otp_allow_legacy_jwt_secret = false;
}

-- Addresses as their own text, with no CIDR blocks.
abbrev pub net : Net
net = record { Addr = Text; parse_ip = some; same_ip = ◌==◌; parse_cidr = λ _. none }

-- A token library for the tests: the text of a token is the key that signed it, and every token is
-- valid and holds its own text as the issuer.
abbrev pub toy_token : Text → Token
toy_token s = record { is_hmac = true; alg = runes "HS256"; valid = true; issuer = s }

abbrev pub toy_parse : (Token → Option Key) → List Text → Text → Option Token
toy_parse key_of methods s = elim (key_of (toy_token s)) [
  | none ↦ none
  | some k ↦ if k == s && any (λ m. m == runes "HS256") methods then some (toy_token s) else none
]

toy_parsed :
    (key_of : Token → Option Key) (methods : List Text) (s : Text) (t : Token)
    → toy_parse key_of methods s ≡ some t
    → (k : Key) × (key_of (toy_token s) ≡ some k)
      × ((k == s) ≡ true)
      × (any (λ m. m == runes "HS256") methods ≡ true)
      × (toy_token s ≡ t)
toy_parsed key_of methods s t h = elim (Option-cases (key_of (toy_token s))) [
  | inl missing ↦ absurd (ground arith)
  | inr (k, found) ↦ (k, found, ground arith, ground arith, ground arith)
]

pub toy_method :
    (key_of : Token → Option Key) (methods : List Text) (s : Text) (t : Token)
    → toy_parse key_of methods s ≡ some t
    → any (λ m. m == t.alg) methods ≡ true
toy_method key_of methods s t h =
    let (k, found, same, allowed, e) = toy_parsed key_of methods s t h in rw (← e) allowed

pub toy_signed :
    (key_of : Token → Option Key) (methods : List Text) (s : Text) (t : Token)
    → toy_parse key_of methods s ≡ some t
    → (k : Key) × (key_of t ≡ some k) × (s ≡ k)
toy_signed key_of methods s t h =
    let (k, found, same, allowed, e) = toy_parsed key_of methods s t h in
    (k, subst (λ x. key_of x ≡ some k) e found, sym ((eq_iff k s).0 same))

abbrev pub jwt_lib : JwtLib
jwt_lib = record {
  parse = toy_parse;
  IsSigned = λ s k. s ≡ k;
  parse_method = toy_method;
  parse_signed = toy_signed;
}

abbrev pub key : Key
key = runes "key"

-- A session of the login of a merchant: its cookie is a token of `jwt_lib` under `key`.
abbrev pub session : String → Context → Context
session cookie c = record c { jwt_cookie = some (runes cookie) }
