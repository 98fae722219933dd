-- ===== src/Http.antt =====
-- What the middleware sees of net/http and gin: the request, its headers, the values of the
-- request context and the keys of `gin.Context`. A header is named by its canonical name, so one
-- constructor stands for every spelling that `http.Header` takes for the same name. Two keys of
-- the request context are taken to be different where their names in open4go/model are.
pub mod Laws
use middle.Prelude.{ℕ, Bool, true, false, List, [], ◌∷◌, Option, none, some, eqb, if◌then◌else◌}
use middle.Text.{Text}

pub data Header : Type 0 where
  namespace account_id user_id user_name phone avatar login_type login_level : Header
  merchant_id x_tenant_id x_merchant_id x_forwarded_host x_gateway_token : Header
  x_internal_token token authorization x_totp_code jwt : Header
  open_id wx_account_id union_id session_key : Header

abbrev pub rank : Header → ℕ
rank namespace = 0
rank account_id = 1
rank user_id = 2
rank user_name = 3
rank phone = 4
rank avatar = 5
rank login_type = 6
rank login_level = 7
rank merchant_id = 8
rank x_tenant_id = 9
rank x_merchant_id = 10
rank x_forwarded_host = 11
rank x_gateway_token = 12
rank x_internal_token = 13
rank token = 14
rank authorization = 15
rank x_totp_code = 16
rank jwt = 17
rank open_id = 18
rank wx_account_id = 19
rank union_id = 20
rank session_key = 21

-- `http.Header`: the values of each name, in order.
abbrev pub Headers : Type 0
Headers = Header → List Text

abbrev first : List Text → Text
first [] = []
first (v ∷ _) = v

-- `Get`: the first value, or "".
abbrev pub get : Headers → Header → Text
get hs h = first (hs h)

-- `Set` replaces every value of the name.
abbrev pub set : Headers → Header → Text → Headers
set hs h v k = if eqb (rank k) (rank h) then v ∷ [] else hs k

-- `Del`
abbrev pub del : Headers → Header → Headers
del hs h k = if eqb (rank k) (rank h) then [] else hs k

-- The values of `c.Request.Context()` that the program writes.
pub record Values : Type 0 where
  pub account : Option Text
  pub namespace : Option Text
  pub merchant : Option Text
  pub operator : Option Text
  pub verified_user : Option Text

-- The keys of `gin.Context`.
pub record Keys : Type 0 where
  pub super_admin : Option Bool
  pub verified_user : Option Text
  pub account_id : Option Text
  pub iss : Option Text
  pub aud : Option Text
  pub jti : Option Text

-- `jwt_cookie` is the cookie "jwt" as gin gives it, unescaped, and `raw_jwt_cookie` as it was sent.
pub record Context : Type 0 where
  pub method : Text
  pub host : Text
  pub remote_addr : Text
  pub full_path : Text
  pub url_path : Text
  pub raw_query : Text
  pub query_code : Text
  pub jwt_cookie : Option Text
  pub raw_jwt_cookie : Option Text
  pub headers : Headers
  pub values : Values
  pub keys : Keys

-- What a handler does with the request: it calls `c.Next()` with the context that it has built, or
-- aborts with a status and never calls the handlers behind it.
pub data Outcome : Type 0 where
  next : Context → Outcome
  abort : ℕ → Context → Outcome

-- Handlers in a chain: `c.Next()` of one runs the following one.
infixl 5 ◌>>=◌
abbrev pub ◌>>=◌ : Outcome → (Context → Outcome) → Outcome
next c >>= k = k c
abort n c >>= k = abort n c
