-- ===== src/Otp.antt =====
-- otp.go: the secret of the second factor, which the server keeps. Redis is not part of the
-- repository: it is the parameter RedisLib, with what its documentation says of SET, GET and DEL.
pub mod Legacy
pub mod Store
pub mod Factor
mod Tests
use middle.Prelude.{
  ℕ, Bool, true, false, ◌&&◌, ◌||◌, not, List, [], ◌∷◌, ◌++◌, Option, none, some, ◌≡◌, ◌≢◌,
  if◌then◌else◌,
}
use middle.Prelude.Int.{ℤ, pos, negsuc}
use middle.Text.{Text, runes, is_empty, trim_space}
use middle.Config.{Config}
use middle.User.{LoginInfo}

-- SET and DEL can fail (`none`); GET gives `none` for an error and for a missing key. A time to live
-- of 0 keeps the value until it is deleted; the laws are about calls with nothing between them.
pub record RedisLib : Type 1 where
  pub State : Type 0
  pub set : Text → Text → ℕ → State → Option State
  pub get : Text → State → Option Text
  pub del : Text → State → Option State
  pub set_same : (k v : Text) (ttl : ℕ) (s s' : State) → set k v ttl s ≡ some s' → get k s' ≡ some v
  pub set_other :
      (k v : Text) (ttl : ℕ) (s s' : State) (k' : Text)
      → set k v ttl s ≡ some s'
      → k' ≢ k
      → get k' s' ≡ get k' s
  pub del_same : (k : Text) (s s' : State) → del k s ≡ some s' → get k s' ≡ none

abbrev pub otp_secret_key_prefix : Text
otp_secret_key_prefix = runes "middle:otp:secret:"

-- The account, or the user where there is none.
abbrev pub otp_id : LoginInfo → Text
otp_id l =
    if is_empty (trim_space l.account_id) then trim_space l.user_id else trim_space l.account_id

unfoldable pub otp_key : LoginInfo → Text
otp_key l = if is_empty (otp_id l) then [] else otp_secret_key_prefix ++ otp_id l

-- `if ttl < 0 { ttl = 0 }`
abbrev pub ttl_of : ℤ → ℕ
ttl_of (pos n) = n
ttl_of (negsuc n) = 0

module _ (redis : RedisLib) where
  -- `none` is an error: no id, or one of Redis.
  unfoldable pub save_otp_secret : LoginInfo → Text → ℤ → redis.State → Option (redis.State)
  save_otp_secret l secret ttl s =
      if is_empty (otp_key l) then none else redis.set (otp_key l) secret (ttl_of ttl) s

  unfoldable pub delete_otp_secret : LoginInfo → redis.State → Option (redis.State)
  delete_otp_secret l s = if is_empty (otp_key l) then some s else redis.del (otp_key l) s

  abbrev pub full_value : Option Text → Option Text
  full_value none = none
  full_value (some v) = if is_empty (trim_space v) then none else some v

  unfoldable pub redis_otp_secret_resolver : redis.State → LoginInfo → Option Text
  redis_otp_secret_resolver s l =
      if is_empty (otp_key l) then none else full_value (redis.get (otp_key l) s)

-- `SetOTPSecretResolver`: nil restores the default.
abbrev pub OtpSecretResolver : Type 0
OtpSecretResolver = LoginInfo → Option Text

abbrev pub set_otp_secret_resolver :
    OtpSecretResolver → Option OtpSecretResolver → OtpSecretResolver
set_otp_secret_resolver default none = default
set_otp_secret_resolver default (some r) = r

abbrev pub full_text : Text → Option Text
full_text s = if is_empty s then none else some s

abbrev pub or_legacy : Option Text → Text → Option Text
or_legacy (some secret) other = if is_empty secret then full_text other else some secret
or_legacy none other = full_text other

-- `resolveOTPSecret`; `legacy` is `legacyOTPSecret`, the field "os" of the token's payload.
unfoldable pub resolve_otp_secret :
    Config → (Text → Text) → OtpSecretResolver → LoginInfo → Text → Option Text
resolve_otp_secret cfg legacy resolver l payload =
    or_legacy (resolver l) (if cfg.otp_allow_legacy_jwt_secret then legacy payload else [])
