-- ===== src/Diff/Depth.antt =====
-- The nesting of the snapshots bounds the calls of `diffAuditValue`.
use middle.Prelude.{
  ℕ, zero, suc, ◌+◌, ◌<◌, ◌≤◌, true, ◌||◌, List, [], ◌∷◌, ◌++◌, ◌≡◌, refl, arith, Bool-cases, inl,
  inr, if◌then◌else◌,
}
use mathlib.Core.Path.{ap₂}
use middle.Text.{Text, ◌==◌}
use middle.Json.{Json, null, bool, num, str, arr, obj, Fields, end, field, find}
use middle.AuditValue.{or_null, at, equal_audit}
use middle.Diff.{
  Change, skip_audit_path, both_maps, names, child_path, kind_of, each, diff_audit_value, depth,
  depths, changes_of,
}

depth-find : (k : Text) (fs : Fields) → depth (or_null (find k fs)) ≤ depths fs
unfolding find depth
depth-find k end = omega arith
depth-find k (field k' v rest) = elim (Bool-cases (k' == k)) [
  | inl e ↦ rw e (omega arith)
  | inr e ↦ rw e (omega (arith, depth-find k rest))
]

depth-at : (k : Text) (v : Json) → depth (at k v) ≤ depth v
unfolding depth
depth-at k (obj fs) = omega (arith, depth-find k fs)
depth-at k null = omega arith
depth-at k (bool b) = omega arith
depth-at k (num n) = omega arith
depth-at k (str s) = omega arith
depth-at k (arr xs) = omega arith

-- In a map, what stands under a key is nested less.
pub depth-at-both_maps :
    (k : Text) (b a : Json)
    → both_maps b a ≡ true
    → depth (at k b) + depth (at k a) < depth b + depth a
unfolding depth
depth-at-both_maps k (obj fs) (obj gs) h = omega (arith, depth-find k fs, depth-find k gs)
depth-at-both_maps k (obj fs) null h = omega (arith, depth-find k fs)
depth-at-both_maps k null (obj gs) h = omega (arith, depth-find k gs)
depth-at-both_maps k _ _ h = absurd (ground arith)

each_cong :
    (f g : Text → List Change) (ks : List Text) → ((k : Text) → f k ≡ g k) → each f ks ≡ each g ks
unfolding each
each_cong f g [] h = refl
each_cong f g (k ∷ ks) h = ap₂ (λ xs ys. xs ++ ys) (h k) (each_cong f g ks h)

pub diff_audit_value_enough :
    (n m : ℕ) (path : Text) (b a : Json)
    → depth b + depth a < n
    → depth b + depth a < m
    → diff_audit_value n path b a ≡ diff_audit_value m path b a
unfolding diff_audit_value
diff_audit_value_enough zero m path b a h h' = absurd (omega (arith, h))
diff_audit_value_enough (suc n) zero path b a h h' = absurd (omega (arith, h'))
diff_audit_value_enough (suc n) (suc m) path b a h h' = elim (Bool-cases (both_maps b a)) [
  | inl e ↦
      rw
        (each_cong (λ k. diff_audit_value n (child_path path k) (at k b) (at k a))
          (λ k. diff_audit_value m (child_path path k) (at k b) (at k a)) (names b a)
          (λ k.
            diff_audit_value_enough n m (child_path path k) (at k b) (at k a)
              (omega (arith, h, depth-at-both_maps k b a e))
              (omega (arith, h', depth-at-both_maps k b a e))))
        refl
  | inr e ↦ rw e refl
]

-- The bound on the calls is never met: the changes are those of the code's own recursion, which
-- stops at a skipped path or at equal values, goes on to every key of two maps (or of a map and
-- nil), and appends one change for all else.
pub changes_of-each :
    (path : Text) (b a : Json)
    → changes_of path b a ≡ (
        if skip_audit_path path || equal_audit b a
        then []
        else if both_maps b a
        then each (λ k. changes_of (child_path path k) (at k b) (at k a)) (names b a)
        else record { path = path; before = b; after = a; kind = kind_of b a } ∷ [])
unfolding changes_of diff_audit_value
changes_of-each path b a = elim (Bool-cases (both_maps b a)) [
  | inl e ↦
      rw
        (each_cong (λ k. diff_audit_value (depth b + depth a) (child_path path k) (at k b) (at k a))
          (λ k. changes_of (child_path path k) (at k b) (at k a)) (names b a)
          (λ k.
            diff_audit_value_enough (depth b + depth a) (suc (depth (at k b) + depth (at k a)))
              (child_path path k) (at k b) (at k a) (depth-at-both_maps k b a e) (omega arith)))
        refl
  | inr e ↦ rw e refl
]
