-- ===== src/Compress/Bounds.antt =====
-- What is stored is at most 8 KB and the mark of a cut.
use middle.Prelude.{
  ℕ, ◌+◌, ◌≤◌, List, [], ◌∷◌, ◌≡◌, refl, arith, Bool-cases, inl, inr, length, leb, take,
  length-append, length-take-le,
}
use middle.Text.{Text, runes, ◌==◌, trim_space, to_lower}
use middle.Text.Utf8.{rune_bytes, utf8}
use middle.Diff.{Change}
use middle.Compress.{
  Codec, max_audit_hot_bytes, truncate_audit_bytes, stored_changes, compress_audit_bodies,
}

length-mark : length (utf8 (runes "…")) ≡ 3
unfolding utf8 rune_bytes
length-mark = refl

length-truncate_audit_bytes :
    (s : List ℕ) → length (truncate_audit_bytes s max_audit_hot_bytes) ≤ max_audit_hot_bytes + 3
unfolding truncate_audit_bytes
length-truncate_audit_bytes [] = omega arith
length-truncate_audit_bytes (x ∷ s) = elim (Bool-cases (leb (length (x ∷ s)) max_audit_hot_bytes)) [
  | inl e ↦ ground (arith, e)
  | inr e ↦
      rw (e, length-append (take max_audit_hot_bytes (x ∷ s)) (utf8 (runes "…")), length-mark)
        (omega (arith, length-take-le max_audit_hot_bytes (x ∷ s)))
]

length-stored_changes :
    (codec : Codec) (after : Text) (l : List Change)
    → length (stored_changes codec after l) ≤ max_audit_hot_bytes + 3
length-stored_changes codec after [] = omega arith
length-stored_changes codec after (c ∷ l) = length-truncate_audit_bytes _

-- Whatever the action and the bodies, neither of the two stored texts is longer than 8192 bytes and
-- the three of the mark of a cut.
pub length-compress_audit_bodies :
    (codec : Codec) (action before after : Text)
    → (length (compress_audit_bodies codec action before after).0 ≤ max_audit_hot_bytes + 3)
      × (length (compress_audit_bodies codec action before after).1 ≤ max_audit_hot_bytes + 3)
unfolding compress_audit_bodies
length-compress_audit_bodies codec action before after =
    let act = to_lower (trim_space action) in
    elim (Bool-cases (act == runes "update")) [
      | inl update ↦ rw update (omega arith, length-stored_changes codec after _)
      | inr no_update ↦ elim (Bool-cases (act == runes "create")) [
        | inl create ↦ rw (no_update, create) (omega arith, length-truncate_audit_bytes _)
        | inr no_create ↦ elim (Bool-cases (act == runes "delete")) [
          | inl delete ↦
              rw (no_update, no_create, delete) (length-truncate_audit_bytes _, omega arith)
          | inr no_delete ↦
              rw (no_update, no_create, no_delete)
                (length-truncate_audit_bytes _, length-truncate_audit_bytes _)
        ]
      ]
    ]
