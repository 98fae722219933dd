-- ===== src/Diff/Exact.antt =====
-- `diffAuditValue` reports exactly the differing values that it can reach.
use middle.Prelude.{
  ℕ, zero, suc, ◌+◌, ◌<◌, true, false, List, [], ◌∷◌, ◌≡◌, ◌↔◌, ap, arith, refl, sym, Bool-cases,
  inl, inr, In, In-append,
}
use middle.Text.{Text}
use middle.Json.{Json, null}
use middle.AuditValue.{at, equal_audit}
use middle.AuditValue.Equal.{equal_audit-at}
use middle.Diff.{
  Change, skip_audit_path, both_maps, names, child_path, kind_of, each, depth, changes_of,
}
use middle.Diff.Depth.{depth-at-both_maps, changes_of-each}
use middle.Diff.Names.{names-at}

-- Below `path` with the values `x` and `y`, the keys of maps lead to `q` with the values `b` and
-- `a`, and through no skipped path.
pub data Reached : Text → Json → Json → Text → Json → Json → Type 0 where
  here : {path : Text} {x y : Json} → Reached path x y path x y
  below :
      {path : Text} {x y : Json} {q : Text} {b a : Json} (k : Text)
      → skip_audit_path path ≡ false
      → both_maps x y ≡ true
      → Reached (child_path path k) (at k x) (at k y) q b a
      → Reached path x y q b a

-- A pair of values that is reported by itself.
pub record Differs (path : Text) (b a : Json) : Type 0 where
  shown : skip_audit_path path ≡ false
  unequal : equal_audit b a ≡ false
  whole : both_maps b a ≡ false

In-each :
    (c : Change) (f : Text → List Change) (ks : List Text) (k : Text)
    → In k ks
    → In c (f k)
    → In c (each f ks)
unfolding each
In-each c f [] k h h' = absurd h
In-each c f (x ∷ ks) k (inl e) h' = (In-append c (f x) (each f ks)).1 (inl (rw (sym e) h'))
In-each c f (x ∷ ks) k (inr h) h' = (In-append c (f x) (each f ks)).1 (inr (In-each c f ks k h h'))

In-each_inv :
    (c : Change) (f : Text → List Change) (ks : List Text)
    → In c (each f ks)
    → (k : Text) × In c (f k)
unfolding each
In-each_inv c f [] h = absurd h
In-each_inv c f (k ∷ ks) h = elim ((In-append c (f k) (each f ks)).0 h) [
  | inl h ↦ (k, h)
  | inr h ↦ In-each_inv c f ks h
]

equal_audit-null : equal_audit null null ≡ true
unfolding equal_audit
equal_audit-null = refl

leaf : Text → Json → Json → Change
leaf path b a = record { path = path; before = b; after = a; kind = kind_of b a }

changes_of-leaf :
    (path : Text) (b a : Json) → Differs path b a → In (leaf path b a) (changes_of path b a)
unfolding leaf
changes_of-leaf path b a d = rw (changes_of-each path b a, d.shown, d.unequal, d.whole) (inl refl)

changes_of_equal :
    (c : Change) (path : Text) (b a : Json)
    → equal_audit b a ≡ true
    → In c (changes_of path b a)
    → ⊥
changes_of_equal c path b a e h = ground (arith, changes_of-each path b a, e, h)

changes_of_skipped :
    (c : Change) (path : Text) (b a : Json)
    → skip_audit_path path ≡ true
    → In c (changes_of path b a)
    → ⊥
changes_of_skipped c path b a e h = ground (arith, changes_of-each path b a, e, h)

In-of_eq : (c : Change) (l l' : List Change) → l ≡ l' → In c l → In c l'
In-of_eq c l l' e h = rw (sym e) h

In-of_same : (c d : Change) (l : List Change) → c ≡ d → In d l → In c l
In-of_same c d l e h = rw e h

-- The keys of a map that a change comes from.
each_of_maps :
    (c : Change) (path : Text) (x y : Json)
    → skip_audit_path path ≡ false
    → equal_audit x y ≡ false
    → both_maps x y ≡ true
    → In c (changes_of path x y)
    → (k : Text) × In c (changes_of (child_path path k) (at k x) (at k y))
each_of_maps c path x y shown unequal maps h =
    In-each_inv c (λ k. changes_of (child_path path k) (at k x) (at k y)) (names x y)
      (In-of_eq c (changes_of path x y) _ (rw (changes_of-each path x y, shown, unequal, maps) refl)
        h)

leaf_of_Differs :
    (c : Change) (path : Text) (x y : Json)
    → Differs path x y
    → In c (changes_of path x y)
    → c ≡ leaf path x y
unfolding leaf
leaf_of_Differs c path x y d h =
    elim (In-of_eq c (changes_of path x y) (leaf path x y ∷ [])
      (rw (changes_of-each path x y, d.shown, d.unequal, d.whole) refl) h) [
        | inl e ↦ e
        | inr e ↦ absurd e
      ]

leaf-Reached :
    (c : Change) (path : Text) (x y : Json)
    → Differs path x y
    → c ≡ leaf path x y
    → Reached path x y c.path c.before c.after
      × Differs c.path c.before c.after
      × (c.kind ≡ kind_of c.before c.after)
unfolding leaf
leaf-Reached c path x y d e = rw e (here, d, refl)

-- What is reached and differs is reported.
Reached-In :
    {path : Text} {x y : Json} {q : Text} {b a : Json}
    → Reached path x y q b a
    → Differs q b a
    → In (leaf q b a) (changes_of path x y)
Reached-In here d = changes_of-leaf _ _ _ d
Reached-In (below {path} {x} {y} {q} {b} {a} k shown maps r) d =
    let inner = Reached-In r d in
    elim (Bool-cases (equal_audit x y)) [
      | inl e ↦
          absurd (
            changes_of_equal _ (child_path path k) (at k x) (at k y) (equal_audit-at k x y e) inner)
      | inr e ↦ elim (names-at k x y) [
        | inl there ↦
            rw (changes_of-each path x y, shown, e, maps)
              (In-each _ (λ k. changes_of (child_path path k) (at k x) (at k y)) (names x y) k there
                inner)
        | inr (n, m) ↦ absurd (
            changes_of_equal _ (child_path path k) (at k x) (at k y) (rw (n, m) equal_audit-null)
              inner)
      ]
    ]

-- What is reported is reached and differs.
In-Reached :
    (n : ℕ) (path : Text) (x y : Json) (c : Change)
    → depth x + depth y < n
    → In c (changes_of path x y)
    → Reached path x y c.path c.before c.after
      × Differs c.path c.before c.after
      × (c.kind ≡ kind_of c.before c.after)
In-Reached zero path x y c small h = absurd (omega (arith, small))
In-Reached (suc n) path x y c small h = elim (Bool-cases (skip_audit_path path)) [
  | inl e ↦ absurd (changes_of_skipped c path x y e h)
  | inr shown ↦ elim (Bool-cases (equal_audit x y)) [
    | inl e ↦ absurd (changes_of_equal c path x y e h)
    | inr unequal ↦ elim (Bool-cases (both_maps x y)) [
      | inl maps ↦
          let (k, h') = each_of_maps c path x y shown unequal maps h in
          let (r, d, e) =
            In-Reached n (child_path path k) (at k x) (at k y) c
              (omega (arith, small, depth-at-both_maps k x y maps)) h' in
          (below k shown maps r, d, e)
      | inr whole ↦
          let d : Differs path x y = record { shown = shown; unequal = unequal; whole = whole } in
          leaf-Reached c path x y d (leaf_of_Differs c path x y d h)
    ]
  ]
]

-- A change is reported exactly if it is the difference of two values that the keys of the snapshots
-- lead to, not both maps and not below a skipped path, under the path of those keys and with the
-- kind that they have.
pub changes_of_iff :
    (path : Text) (x y : Json) (c : Change)
    → In c (changes_of path x y) ↔ (
        Reached path x y c.path c.before c.after
        × Differs c.path c.before c.after
        × (c.kind ≡ kind_of c.before c.after))
unfolding leaf
changes_of_iff path x y c = (
  (λ h. In-Reached (suc (depth x + depth y)) path x y c (omega arith) h),
  (λ (r, d, e).
      In-of_same c _ (changes_of path x y) (ap (λ k. record c { kind = k }) e) (Reached-In r d)),
)
