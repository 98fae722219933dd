-- ===== src/Compress/Summary.antt =====
-- What the summary of a document holds.
use middle.Prelude.{
  Bool, true, false, List, [], ◌∷◌, Option, none, some, ◌≡◌, refl, arith, Bool-cases, inl, inr, any,
  if◌then◌else◌,
}
use middle.Text.{Text, runes, ◌==◌, to_lower, text_runs}
use middle.Text.Equality.{eq_iff}
use middle.Json.{Json, Fields, end, field, find}
use middle.AuditValue.{put}
use middle.Diff.{audit_skip_exact}
use middle.Compress.{
  audit_summary_keys, lookup_fold, put_found, summary, put_merchant, inner_merchant, summary_of,
  or_folded,
}

find-put :
    (k key : Text) (v : Json) (fs : Fields)
    → find k (put key v fs) ≡ (if key == k then some v else find k fs)
unfolding find put
find-put k key v end = refl
find-put k key v (field k' w rest) =
    ground (arith, eq_iff k' key, eq_iff key k, eq_iff k' k, find-put k key v rest)

abbrev IsPlain : List Text → Type 0
IsPlain [] = Unit
IsPlain (key ∷ keys) = (any (λ k. k == to_lower key) audit_skip_exact ≡ false) × IsPlain keys

audit_summary_keys-IsPlain : IsPlain audit_summary_keys
unfolding text_runs
audit_summary_keys-IsPlain = ground arith

find-put_found :
    (k key : Text) (v : Option Json) (out : Fields)
    → any (λ k. k == to_lower key) audit_skip_exact ≡ false
    → find k (put_found key v out) ≡ (if key == k then or_folded v (find k out) else find k out)
find-put_found k key none out h = ground arith
find-put_found k key (some v) out h = rw (h, find-put k key v out) refl

found_twice :
    (b : Bool) (v w : Option Json)
    → (if b then or_folded v (or_folded v w) else or_folded v w) ≡ or_folded v w
found_twice false v w = refl
found_twice true none w = refl
found_twice true (some v) w = refl

or_folded-none : (v : Option Json) → or_folded v none ≡ v
or_folded-none none = refl
or_folded-none (some v) = refl

find-summary :
    (k : Text) (keys : List Text) (root out : Fields)
    → IsPlain keys
    → find k (summary keys root out) ≡ (
        if any (λ key. key == k) keys
        then or_folded (lookup_fold root k) (find k out)
        else find k out)
unfolding summary
find-summary k [] root out plain = refl
find-summary k (key ∷ keys) root out plain = elim (Bool-cases (key == k)) [
  | inl same ↦
      rw
        (
          find-summary k keys root (put_found key (lookup_fold root key) out) plain.1,
          find-put_found k key (lookup_fold root key) out plain.0,
          same,
          (eq_iff key k).0 same,
        )
        (found_twice (any (λ x. x == k) keys) (lookup_fold root k) (find k out))
  | inr other ↦
      rw
        (
          find-summary k keys root (put_found key (lookup_fold root key) out) plain.1,
          find-put_found k key (lookup_fold root key) out plain.0,
          other,
        )
        refl
]

find-summary-end :
    (k : Text) (keys : List Text) (root : Fields)
    → IsPlain keys
    → find k (summary keys root end)
      ≡ (if any (λ key. key == k) keys then lookup_fold root k else none)
unfolding find
find-summary-end k keys root plain =
    rw (find-summary k keys root end plain, or_folded-none (lookup_fold root k)) refl

find-put_merchant :
    (k : Text) (mid : Option Json) (out : Fields)
    → find k (put_merchant mid out)
      ≡ or_folded (if runes "merchant_id" == k then mid else none) (find k out)
find-put_merchant k none out = ground arith
find-put_merchant k (some mid) out = ground (arith, find-put k (runes "merchant_id") mid out)

-- A summary has a key exactly if it is one of the summary's keys and the document has it, up to
-- case; the value is the document's, but under "merchant_id" it is the one that stands below "_",
-- if there is one.
pub find-summary_of :
    (k : Text) (root : Fields)
    → find k (summary_of root)
      ≡ or_folded
          (if runes "merchant_id" == k then inner_merchant (find (runes "_") root) else none)
          (if any (λ key. key == k) audit_summary_keys then lookup_fold root k else none)
unfolding summary_of
find-summary_of k root =
    rw
      (
        find-put_merchant k (inner_merchant (find (runes "_") root))
            (summary audit_summary_keys root end),
        find-summary-end k audit_summary_keys root audit_summary_keys-IsPlain,
      )
      refl
