-- ===== src/Diff/Sorted.antt =====
-- `DiffAuditJSON` cuts the changes at eighty and sorts them.
use middle.Prelude.{
  ℕ, zero, suc, ◌≤◌, List, [], ◌∷◌, Option, ◌≡◌, ◌↔◌, arith, Bool-cases, inl, inr, In, All, In-All,
  length, take, length-take-le, ltb,
}
use middle.Text.{Text}
use middle.Text.SortBy.{sort_by, Ascending, sort_by-Ascending, length-sort_by, In-sort_by}
use middle.Json.{Json}
use middle.Diff.{
  Change, max_audit_changes, kind_of, path_of, changes_of, diff_audit_json, cut_changes, normalized,
}
use middle.Diff.Exact.{Reached, Differs, changes_of_iff}

In-take : (e : Change) (n : ℕ) (l : List Change) → In e (take n l) → In e l
unfolding take
In-take e zero l h = absurd h
In-take e (suc n) [] h = absurd h
In-take e (suc n) (c ∷ l) h = ground (arith, h, In-take e n l)

length-cut_changes : (l : List Change) → length (cut_changes l) ≤ max_audit_changes
length-cut_changes l = ground (arith, length-take-le max_audit_changes l)

In-cut_changes : (e : Change) (l : List Change) → In e (cut_changes l) → In e l
In-cut_changes e l h = elim (Bool-cases (ltb max_audit_changes (length l))) [
  | inl cut ↦ In-take e max_audit_changes l (ground (arith, h, cut))
  | inr whole ↦ ground (arith, h, whole)
]

cut_changes_whole : (l : List Change) → length l ≤ max_audit_changes → cut_changes l ≡ l
cut_changes_whole l few = ground (arith, few)

-- A difference has at most eighty changes, in the order of their paths, and each is a difference of
-- two values that the keys of the normalised snapshots lead to, under the path of those keys.
pub diff_audit_json-Ascending :
    (decode : Text → Option Json) (before after : Text)
    → (length (diff_audit_json decode before after) ≤ max_audit_changes)
      × Ascending path_of (diff_audit_json decode before after)
      × All
          (λ c.
            Reached [] (normalized decode before) (normalized decode after) c.path c.before c.after
            × Differs c.path c.before c.after)
          (diff_audit_json decode before after)
unfolding diff_audit_json
diff_audit_json-Ascending decode before after =
    let found = changes_of [] (normalized decode before) (normalized decode after) in
    (
      rw (length-sort_by path_of (cut_changes found)) (length-cut_changes found),
      sort_by-Ascending path_of (cut_changes found),
      In-All (sort_by path_of (cut_changes found)) (λ c h.
          let (r, d, _) =
            (changes_of_iff [] (normalized decode before) (normalized decode after) c).0
              (In-cut_changes c found ((In-sort_by path_of c (cut_changes found)).0 h)) in
          (r, d)),
    )

-- If there are at most eighty, the changes are exactly the differences: a change is in the list just
-- if the keys of the normalised snapshots lead to its two values under its path and through no
-- skipped one, its path is not skipped, the values differ and are not both maps (or a map and nil),
-- and its kind is that of the two.
pub diff_audit_json_iff :
    (decode : Text → Option Json) (before after : Text) (c : Change)
    → length (changes_of [] (normalized decode before) (normalized decode after))
      ≤ max_audit_changes
    → In c (diff_audit_json decode before after) ↔ (
        Reached [] (normalized decode before) (normalized decode after) c.path c.before c.after
        × Differs c.path c.before c.after
        × (c.kind ≡ kind_of c.before c.after))
unfolding diff_audit_json
diff_audit_json_iff decode before after c few =
    let found = changes_of [] (normalized decode before) (normalized decode after) in
    rw (cut_changes_whole found few) (
      ground (
        arith,
        In-sort_by path_of c found,
        changes_of_iff [] (normalized decode before) (normalized decode after) c,
      ))
