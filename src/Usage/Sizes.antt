-- ===== src/Usage/Sizes.antt =====
-- usage.go: the size of an object, from the request or from the document before a change.
use middle.Prelude.{
  ℕ, suc, ◌-◌, ◌^◌, true, false, List, [], ◌∷◌, Option, none, some, ltb, ◌≡◌, refl, arith,
  if◌then◌else◌,
}
use middle.Prelude.Int.{ℤ, pos, negsuc, is_positive, is_zero, abs_int64}
use middle.Text.{Text, runes, trim_space, has_prefix}
use middle.Text.ParseInt.{parse_int}
use middle.Json.{Json, num, str, obj, Fields, find}
use middle.Usage.{usage_bytes}

-- The kinds of values that `asInt64` tells apart: signed and unsigned integers, a float by its
-- integral part, a string, and all else. No decoder of the program makes a json.Number.
pub data Any : Type 0 where
  signed : ℤ → Any
  unsigned : ℕ → Any
  float : ℤ → Any
  string : Text → Any
  other : Any

-- `int64(n)` of a `uint64`
abbrev pub wrapped : ℕ → ℤ
wrapped n = if ltb n (2 ^ 63) then pos n else negsuc (2 ^ 64 - suc n)

abbrev pub or_zero : Option ℤ → ℤ
or_zero none = pos 0
or_zero (some n) = n

unfoldable pub as_int64 : Any → ℤ
as_int64 (signed n) = n
as_int64 (unsigned n) = wrapped n
as_int64 (float n) = n
as_int64 (string s) = or_zero (parse_int (trim_space s))
as_int64 other = pos 0

-- A key of the request that is not set counts as 0.
unfoldable pub context_int64 : Option Any → ℤ
context_int64 none = pos 0
context_int64 (some v) = abs_int64 (as_int64 v)

-- The value of "UsageBytes" after SetUsageBytes.
unfoldable pub set_usage_bytes : ℤ → Option Any → Option Any
set_usage_bytes n old = if is_zero (abs_int64 n) then old else some (signed (abs_int64 n))

abbrev pub size_keys : List Text
size_keys = runes "size" ∷ runes "Size" ∷ runes "bytes" ∷ runes "storage_bytes" ∷ []

-- The integral part of a number of a document, by its text, is the argument `truncate`.
module _ (truncate : Text → ℤ) where
  abbrev pub any_of : Option Json → Any
  any_of (some (num n)) = float (truncate n)
  any_of (some (str s)) = string s
  any_of _ = other

  unfoldable pub first_size : Fields → List Text → ℤ
  first_size m [] = pos 0
  first_size m (key ∷ keys) =
      let n = abs_int64 (as_int64 (any_of (find key m))) in
      if is_positive n then n else first_size m keys

  abbrev pub size_in : Option Json → ℤ
  size_in (some (obj m)) = first_size m size_keys
  size_in _ = pos 0

  unfoldable pub size_from_json : (Text → Option Json) → Text → ℤ
  size_from_json decode raw =
      let s = trim_space raw in if has_prefix s (runes "{") then size_in (decode s) else pos 0

  -- `usageBytes`
  unfoldable pub request_bytes : (Text → Option Json) → Option Any → Text → ℤ → ℤ
  request_bytes decode set before content_length =
      usage_bytes (context_int64 set) (size_from_json decode before) content_length

abs_int64_idem : (n : ℤ) → abs_int64 (abs_int64 n) ≡ abs_int64 n
abs_int64_idem (pos n) = refl
abs_int64_idem (negsuc n) = ground arith

positive_nonzero : (n : ℤ) → is_positive n ≡ true → is_zero n ≡ false
positive_nonzero (pos n) h = ground arith
positive_nonzero (negsuc n) h = refl

-- The size that a handler has set is the one that is counted, whatever the document and the length
-- of the body say, if its magnitude is positive.
pub request_bytes-set_usage_bytes :
    (truncate : Text → ℤ) (decode : Text → Option Json) (n : ℤ) (old : Option Any) (before : Text)
    (content_length : ℤ)
    → is_positive (abs_int64 n) ≡ true
    → request_bytes truncate decode (set_usage_bytes n old) before content_length ≡ abs_int64 n
unfolding request_bytes set_usage_bytes context_int64 usage_bytes as_int64
request_bytes-set_usage_bytes truncate decode n old before len h =
    rw (positive_nonzero (abs_int64 n) h, abs_int64_idem n, h) refl
