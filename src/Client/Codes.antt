-- ===== src/Client/Codes.antt =====
-- Codes and the tables of them.
use middle.Prelude.{ℕ, true, false, [], ◌∷◌, All, ◌≡◌, ◌⊎◌, refl, arith, Bool-cases, inl, inr}
use middle.Text.{Text, is_empty, ◌==◌, trim_left, trim_right, trim_space, is_space, to_lower}
use middle.Text.Case.{to_lower_idem}
use middle.Client.{
  Table, put, lookup_name, text_of, put_all, default_client_host_labels, in_code, all_runes,
  matches_code, normalize_client_code, add_hosts,
}

-- A code: a letter or digit, then at most 31 letters, digits, "_", "." and "-", all in lower case.
abbrev pub IsCode : Text → Type 0
IsCode c = matches_code c ≡ true

in_code_no_space : (c : ℕ) → in_code c ≡ true → is_space c ≡ false
unfolding is_space
in_code_no_space c h = ground arith

trim_right-all_runes : (s : Text) → all_runes in_code s ≡ true → trim_right s ≡ s
unfolding all_runes trim_right
trim_right-all_runes [] h = refl
trim_right-all_runes (c ∷ s) h = ground (arith, trim_right-all_runes s, in_code_no_space c)

all_runes_code : (c : ℕ) (s : Text) → IsCode (c ∷ s) → all_runes in_code (c ∷ s) ≡ true
unfolding matches_code all_runes
all_runes_code c s h = ground arith

trim_space-IsCode : (s : Text) → IsCode s → trim_space s ≡ s
unfolding matches_code trim_space trim_left
trim_space-IsCode [] h = absurd (ground arith)
trim_space-IsCode (c ∷ s) h =
    let kept : trim_right (c ∷ s) ≡ c ∷ s = trim_right-all_runes (c ∷ s) (all_runes_code c s h) in
    ground (arith, in_code_no_space c)

pub IsCode-full : (s : Text) → IsCode s → is_empty s ≡ false
unfolding matches_code
IsCode-full [] h = absurd (ground arith)
IsCode-full (c ∷ s) h = refl

normalize_client_code-nil : normalize_client_code [] ≡ []
unfolding normalize_client_code matches_code to_lower trim_space trim_left trim_right
normalize_client_code-nil = refl

pub normalize_client_code_cases :
    (code : Text)
    → (normalize_client_code code ≡ [])
      ⊎ (IsCode (normalize_client_code code)
          × (to_lower (normalize_client_code code) ≡ normalize_client_code code))
unfolding normalize_client_code
normalize_client_code_cases code = elim (Bool-cases (matches_code (to_lower (trim_space code)))) [
  | inl ok ↦ rw ok (inr (ok, to_lower_idem (trim_space code)))
  | inr bad ↦ rw bad (inl refl)
]

normalize_client_code-IsCode : (c : Text) → IsCode c → to_lower c ≡ c → normalize_client_code c ≡ c
unfolding normalize_client_code
normalize_client_code-IsCode c ok lower = rw (trim_space-IsCode c ok, lower, ok) refl

-- What was normalised is its own normal form.
pub normalize_client_code_idem :
    (code : Text) → normalize_client_code (normalize_client_code code) ≡ normalize_client_code code
normalize_client_code_idem code = elim (normalize_client_code_cases code) [
  | inl e ↦ rw e normalize_client_code-nil
  | inr (ok, lower) ↦ normalize_client_code-IsCode (normalize_client_code code) ok lower
]

-- A host that has a client has one with a code.
abbrev pub AllCodes : Table → Type 0
AllCodes = All (λ e. IsCode (e.1))

put-AllCodes : (k v : Text) (m : Table) → IsCode v → AllCodes m → AllCodes (put k v m)
unfolding put
put-AllCodes k v [] h a = (h, tt)
put-AllCodes k v ((k', v') ∷ m) h (h', a) = elim (Bool-cases (k' == k)) [
  | inl e ↦ rw e (h, a)
  | inr e ↦ rw e (h', put-AllCodes k v m h a)
]

pub lookup_name-AllCodes :
    (m : Table) (k : Text)
    → AllCodes m
    → (text_of (lookup_name m k) ≡ []) ⊎ IsCode (text_of (lookup_name m k))
unfolding lookup_name
lookup_name-AllCodes [] k a = inl refl
lookup_name-AllCodes ((k', v) ∷ m) k (h, a) = elim (Bool-cases (k' == k)) [
  | inl e ↦ rw e (inr h)
  | inr e ↦ rw e (lookup_name-AllCodes m k a)
]

pub add_hosts-AllCodes : (pairs m : Table) → AllCodes m → AllCodes (add_hosts pairs m)
unfolding add_hosts
add_hosts-AllCodes [] m a = a
add_hosts-AllCodes ((host, code) ∷ pairs) m a = elim (normalize_client_code_cases code) [
  | inl e ↦ rw e (add_hosts-AllCodes pairs m a)
  | inr (ok, lower) ↦ rw (IsCode-full (normalize_client_code code) ok) (
      add_hosts-AllCodes pairs (put (to_lower host) (normalize_client_code code) m)
        (put-AllCodes (to_lower host) (normalize_client_code code) m ok a))
]

pub default_hosts-AllCodes : AllCodes (put_all default_client_host_labels [])
unfolding put matches_code all_runes ◌==◌
default_hosts-AllCodes = (refl, (refl, (refl, (refl, (refl, (refl, tt))))))
