-- ===== src/Otp/Tests.antt =====
-- A store for the tests, in which every call succeeds, and the theorems on it.
use middle.Prelude.{Bool, [], Option, none, some, ◌≡◌, ◌≢◌, refl, arith, if◌then◌else◌}
use middle.Prelude.Int.{negsuc}
use middle.Text.{Text, runes, text_runs, ◌==◌, trim_space}
use middle.Text.Equality.{eq_iff, eq_refl}
use middle.Http.{Context, set, x_totp_code}
use middle.User.{LoginInfo}
use middle.Otp.{RedisLib, otp_key, save_otp_secret, redis_otp_secret_resolver}
use middle.Otp.Store.{redis_otp_secret_resolver-save_otp_secret}
use middle.Fixtures.{no_headers, request, session, login}

abbrev Values : Type 0
Values = Text → Option Text

abbrev written : Text → Option Text → Values → Values
written k v s k' = if k' == k then v else s k'

written_same :
    (k : Text) (v : Option Text) (s s' : Values) → some (written k v s) ≡ some s' → s' k ≡ v
written_same k v s s' h = ground (arith, eq_refl k)

written_other :
    (k : Text) (v : Option Text) (s s' : Values) (k' : Text)
    → some (written k v s) ≡ some s'
    → k' ≢ k
    → s' k' ≡ s k'
written_other k v s s' k' h ne = ground (arith, eq_iff k' k)

abbrev store : RedisLib
store = record {
  State = Values;
  set = λ k v ttl s. some (written k (some v) s);
  get = λ k s. s k;
  del = λ k s. some (written k none s);
  set_same = λ k v ttl s s' h. written_same k (some v) s s' h;
  set_other = λ k v ttl s s' k' h ne. written_other k (some v) s s' k' h ne;
  del_same = λ k s s' h. written_same k none s s' h;
}

abbrev nothing : Values
nothing k = none

abbrev kept : Values
kept = written (runes "middle:otp:secret:acc-1") (some (runes "seed")) nothing

abbrev other : LoginInfo
other = record (login "tenant-a") { account_id = runes "acc-2" }

kept_saved :
    (save_otp_secret store (login "tenant-a") (runes "seed") (negsuc 4) nothing ≡ some kept)
    × (trim_space (runes "seed") ≢ [])
    × (otp_key other ≢ otp_key (login "tenant-a"))
unfolding save_otp_secret otp_key text_runs
kept_saved = (refl, λ e. ground arith, λ e. ground arith)

redis_otp_secret_resolver-save_otp_secret_example :
    (redis_otp_secret_resolver store kept (login "tenant-a") ≡ some (runes "seed"))
    × (redis_otp_secret_resolver store kept other ≡ redis_otp_secret_resolver store nothing other)
redis_otp_secret_resolver-save_otp_secret_example =
    redis_otp_secret_resolver-save_otp_secret store (login "tenant-a") (runes "seed") (negsuc 4)
      nothing kept other (kept_saved.0) (kept_saved.1) (kept_saved.2)

abbrev load : Text → Option LoginInfo
load s = if s == runes "key" then some (login "tenant-a") else none

abbrev validate : Text → Text → Bool
validate code secret = code == runes "123456"

abbrev legacy : Text → Text
legacy payload = []

abbrev coded : Context
coded = session "key" (request "shop.example.com" (set no_headers x_totp_code (runes "123456")))
