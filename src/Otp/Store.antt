-- ===== src/Otp/Store.antt =====
-- Secrets come back as they were saved, and each account has its own.
use middle.Prelude.{false, [], none, some, ◌≡◌, ◌≢◌, refl, arith, Bool-cases, inl, inr}
use middle.Prelude.Int.{ℤ}
use middle.Text.{Text, is_empty, trim_space}
use middle.User.{LoginInfo}
use middle.Otp.{
  RedisLib, otp_id, otp_key, ttl_of, save_otp_secret, delete_otp_secret, redis_otp_secret_resolver,
}

module _ (redis : RedisLib) where
  saved :
      (l : LoginInfo) (secret : Text) (ttl : ℤ) (s s' : redis.State)
      → save_otp_secret redis l secret ttl s ≡ some s'
      → (is_empty (otp_key l) ≡ false) × (redis.set (otp_key l) secret (ttl_of ttl) s ≡ some s')
  unfolding save_otp_secret
  saved l secret ttl s s' h = (ground arith, ground arith)

  -- A secret that was saved for a login is the one that is found for it, if it is not blank; what is
  -- found for a login with another id is what was found for it before.
  pub redis_otp_secret_resolver-save_otp_secret :
      (l : LoginInfo) (secret : Text) (ttl : ℤ) (s s' : redis.State) (other : LoginInfo)
      → save_otp_secret redis l secret ttl s ≡ some s'
      → trim_space secret ≢ []
      → otp_key other ≢ otp_key l
      → (redis_otp_secret_resolver redis s' l ≡ some secret)
        × (redis_otp_secret_resolver redis s' other ≡ redis_otp_secret_resolver redis s other)
  unfolding redis_otp_secret_resolver
  redis_otp_secret_resolver-save_otp_secret l secret ttl s s' other h full ne =
      let (key, set) = saved l secret ttl s s' h in
      (
        rw (key, redis.set_same (otp_key l) secret (ttl_of ttl) s s' set) (ground arith),
        rw (redis.set_other (otp_key l) secret (ttl_of ttl) s s' (otp_key other) set ne) refl,
      )

  -- Two logins share a secret exactly if they have the same id.
  pub otp_key-inj : (l m : LoginInfo) → otp_key l ≡ otp_key m → otp_id l ≡ otp_id m
  unfolding otp_key
  otp_key-inj l m h = ground arith

  -- After a deletion no secret is found for the login.
  pub redis_otp_secret_resolver-delete_otp_secret :
      (l : LoginInfo) (s s' : redis.State)
      → delete_otp_secret redis l s ≡ some s'
      → redis_otp_secret_resolver redis s' l ≡ none
  unfolding redis_otp_secret_resolver delete_otp_secret
  redis_otp_secret_resolver-delete_otp_secret l s s' h = elim (Bool-cases (is_empty (otp_key l))) [
    | inl e ↦ rw e refl
    | inr e ↦ rw (e, redis.del_same (otp_key l) s s' (ground arith)) refl
  ]
