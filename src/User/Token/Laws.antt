-- ===== src/User/Token/Laws.antt =====
-- What a token carries of a login.
use middle.Prelude.{
  Bool, true, false, Option, none, some, ◌≡◌, refl, sym, Bool-cases, inl, inr, if◌then◌else◌,
}
use middle.Text.{Text, runes, equal_fold, text_runs}
use middle.Json.{Json, null, bool, num, str, arr, obj, Fields, end, field}
use middle.User.{LoginInfo}
use middle.User.Token.{
  TokenLib, token_fields, text_field, bool_field, load_field, then_load, load_fields, load_value,
  dump_login_info, load,
}

load_fields-token_fields :
    (l l' : LoginInfo)
    → l'.super_admin ≡ false
    → load_fields (token_fields l) l' ≡ some (record l { opt_secret = l'.opt_secret })
unfolding load_fields load_field text_runs
load_fields-token_fields l l' h = elim (Bool-cases l.super_admin) [
  | inl e ↦ rw e refl
  | inr e ↦ rw (e, h) refl
]

-- A result is an error, or a login with that secret.
abbrev pub KeepsSecret : Text → Option LoginInfo → Type 0
KeepsSecret secret none = Unit
KeepsSecret secret (some l) = l.opt_secret ≡ secret

if-KeepsSecret :
    (secret : Text) (b : Bool) (o o' : Option LoginInfo)
    → KeepsSecret secret o
    → KeepsSecret secret o'
    → KeepsSecret secret (if b then o else o')
if-KeepsSecret secret true o o' h h' = h
if-KeepsSecret secret false o o' h h' = h'

text_field-KeepsSecret :
    (v : Json) (put : Text → LoginInfo) (l : LoginInfo)
    → ((s : Text) → (put s).opt_secret ≡ l.opt_secret)
    → KeepsSecret l.opt_secret (text_field v put l)
text_field-KeepsSecret (str s) put l h = h s
text_field-KeepsSecret null put l h = refl
text_field-KeepsSecret (bool b) put l h = tt
text_field-KeepsSecret (num n) put l h = tt
text_field-KeepsSecret (arr xs) put l h = tt
text_field-KeepsSecret (obj fs) put l h = tt

bool_field-KeepsSecret : (v : Json) (l : LoginInfo) → KeepsSecret l.opt_secret (bool_field v l)
bool_field-KeepsSecret (bool b) l = refl
bool_field-KeepsSecret null l = refl
bool_field-KeepsSecret (str s) l = tt
bool_field-KeepsSecret (num n) l = tt
bool_field-KeepsSecret (arr xs) l = tt
bool_field-KeepsSecret (obj fs) l = tt

load_field-KeepsSecret :
    (k : Text) (v : Json) (l : LoginInfo) → KeepsSecret l.opt_secret (load_field k v l)
unfolding load_field
load_field-KeepsSecret k v l =
    if-KeepsSecret l.opt_secret (equal_fold k (runes "namespace")) _ _
      (text_field-KeepsSecret v _ l (λ s. refl))
      (if-KeepsSecret l.opt_secret (equal_fold k (runes "merchant-id")) _ _
        (text_field-KeepsSecret v _ l (λ s. refl))
        (if-KeepsSecret l.opt_secret (equal_fold k (runes "account_id")) _ _
          (text_field-KeepsSecret v _ l (λ s. refl))
          (if-KeepsSecret l.opt_secret (equal_fold k (runes "phone")) _ _
            (text_field-KeepsSecret v _ l (λ s. refl))
            (if-KeepsSecret l.opt_secret (equal_fold k (runes "user_id")) _ _
              (text_field-KeepsSecret v _ l (λ s. refl))
              (if-KeepsSecret l.opt_secret (equal_fold k (runes "user_name")) _ _
                (text_field-KeepsSecret v _ l (λ s. refl))
                (if-KeepsSecret l.opt_secret (equal_fold k (runes "avatar")) _ _
                  (text_field-KeepsSecret v _ l (λ s. refl))
                  (if-KeepsSecret l.opt_secret (equal_fold k (runes "login_type")) _ _
                    (text_field-KeepsSecret v _ l (λ s. refl))
                    (if-KeepsSecret l.opt_secret (equal_fold k (runes "login_level")) _ _
                      (text_field-KeepsSecret v _ l (λ s. refl))
                      (if-KeepsSecret l.opt_secret (equal_fold k (runes "sa")) _ _
                        (bool_field-KeepsSecret v l) refl)))))))))

then_load-KeepsSecret :
    (o : Option LoginInfo) (k : LoginInfo → Option LoginInfo) (secret : Text)
    → KeepsSecret secret o
    → ((l : LoginInfo) → l.opt_secret ≡ secret → KeepsSecret secret (k l))
    → KeepsSecret secret (then_load o k)
then_load-KeepsSecret none k secret h h' = tt
then_load-KeepsSecret (some l) k secret h h' = h' l h

load_fields-KeepsSecret :
    (fs : Fields) (l : LoginInfo) (secret : Text)
    → l.opt_secret ≡ secret
    → KeepsSecret secret (load_fields fs l)
unfolding load_fields
load_fields-KeepsSecret end l secret h = h
load_fields-KeepsSecret (field k v rest) l secret h =
    then_load-KeepsSecret (load_field k v l) (λ l'. load_fields rest l') secret
      (rw (sym h) (load_field-KeepsSecret k v l))
      (λ l' h'. load_fields-KeepsSecret rest l' secret h')

load_value-KeepsSecret :
    (o : Option Json) (l : LoginInfo) → KeepsSecret l.opt_secret (load_value o l)
load_value-KeepsSecret (some (obj fs)) l = load_fields-KeepsSecret fs l l.opt_secret refl
load_value-KeepsSecret (some null) l = refl
load_value-KeepsSecret (some (bool b)) l = tt
load_value-KeepsSecret (some (num n)) l = tt
load_value-KeepsSecret (some (str s)) l = tt
load_value-KeepsSecret (some (arr xs)) l = tt
load_value-KeepsSecret none l = tt

-- No token sets the secret of a second factor: whatever its text, Load fails or leaves the secret of
-- the login as it was.
pub load-KeepsSecret :
    (lib : TokenLib) (payload : Text) (l : LoginInfo)
    → KeepsSecret l.opt_secret (load lib payload l)
unfolding load
load-KeepsSecret lib payload l = load_value-KeepsSecret (lib.decode payload) l

-- If the library reads back what it wrote of a login, Load gives the login that DumpLoginInfo wrote,
-- but for the secret of its second factor, which stays that of the login that is loaded into; this
-- one must not have been a super-admin, since a token that does not say so leaves the mark.
pub load-dump_login_info :
    (lib : TokenLib) (l l' : LoginInfo)
    → lib.decode (lib.encode (obj (token_fields l))) ≡ some (obj (token_fields l))
    → l'.super_admin ≡ false
    → load lib (dump_login_info lib l) l' ≡ some (record l { opt_secret = l'.opt_secret })
unfolding load dump_login_info
load-dump_login_info lib l l' reads_back h = rw reads_back (load_fields-token_fields l l' h)
