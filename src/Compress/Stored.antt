-- ===== src/Compress/Stored.antt =====
-- An update is read back from what was stored of it.
use middle.Prelude.{ℕ, ◌≤◌, true, List, [], ◌∷◌, some, ◌≡◌, ◌≢◌, refl, arith, ap, ◌∙◌, All, length}
use middle.Text.{Text, runes, trim_space, to_lower, has_prefix}
use middle.Text.Equality.{eq_refl}
use middle.Text.Utf8.{utf8, runes_of}
use middle.Text.Utf8.Laws.{IsRune, runes_of-utf8}
use middle.Diff.{Change, diff_audit_json}
use middle.Compress.{
  Envelope, Codec, max_audit_hot_bytes, audit_diff_version, truncate_audit_bytes, stored_changes,
  compress_audit_bodies, parse_audit_diff_after,
}

abbrev pub envelope_of : List Change → Envelope
envelope_of changes = record { audit = audit_diff_version; changes = some changes }

-- What json.Marshal promises of an envelope: an object in valid UTF-8 with no space around it, which json.Unmarshal
-- decodes to the same envelope.
pub record IsEncoded (codec : Codec) (env : Envelope) (raw : Text) : Type 0 where
  pub encodes : codec.marshal_envelope env ≡ some raw
  pub decodes : codec.decode_envelope raw ≡ some env
  pub solid : trim_space raw ≡ raw
  pub valid : All IsRune raw
  pub is_object : has_prefix raw (runes "{") ≡ true

truncate_audit_bytes_short :
    (s : List ℕ) → length s ≤ max_audit_hot_bytes → truncate_audit_bytes s max_audit_hot_bytes ≡ s
unfolding truncate_audit_bytes
truncate_audit_bytes_short [] h = refl
truncate_audit_bytes_short (x ∷ s) h = ground (arith, h)

stored_changes_fit :
    (codec : Codec) (after raw : Text) (l : List Change)
    → l ≢ []
    → IsEncoded codec (envelope_of l) raw
    → length (utf8 raw) ≤ max_audit_hot_bytes
    → stored_changes codec after l ≡ utf8 raw
stored_changes_fit codec after raw [] some_change enc fits = absurd (some_change refl)
stored_changes_fit codec after raw (c ∷ l) some_change enc fits =
    rw enc.encodes (truncate_audit_bytes_short (utf8 raw) fits)

parse_audit_diff_after-IsEncoded :
    (codec : Codec) (l : List Change) (raw : Text)
    → IsEncoded codec (envelope_of l) raw
    → parse_audit_diff_after codec.decode_envelope raw ≡ some l
unfolding parse_audit_diff_after
parse_audit_diff_after-IsEncoded codec l raw enc =
    rw (enc.solid, enc.is_object, enc.decodes, eq_refl audit_diff_version) refl

stored_update :
    (codec : Codec) (action before after raw : Text)
    → to_lower (trim_space action) ≡ runes "update"
    → diff_audit_json codec.decode before after ≢ []
    → IsEncoded codec (envelope_of (diff_audit_json codec.decode before after)) raw
    → length (utf8 raw) ≤ max_audit_hot_bytes
    → compress_audit_bodies codec action before after ≡ ([], utf8 raw)
unfolding compress_audit_bodies
stored_update codec action before after raw update changed enc fits =
    let found = diff_audit_json codec.decode before after in
    rw (update, eq_refl (runes "update"), stored_changes_fit codec after raw found changed enc fits)
      refl

-- If json encodes the envelope of the changes as an object of at most 8 KB with no space around it,
-- which it decodes again, then an action that is "update" but for case and space, with at least one
-- change, stores nothing before, and after it bytes from which ParseAuditDiffAfter reads exactly the
-- changes that DiffAuditJSON found.
pub parse_audit_diff_after-compress_audit_bodies :
    (codec : Codec) (action before after raw : Text)
    → to_lower (trim_space action) ≡ runes "update"
    → diff_audit_json codec.decode before after ≢ []
    → IsEncoded codec (envelope_of (diff_audit_json codec.decode before after)) raw
    → length (utf8 raw) ≤ max_audit_hot_bytes
    → ((compress_audit_bodies codec action before after).0 ≡ [])
      × (parse_audit_diff_after codec.decode_envelope
            (runes_of (compress_audit_bodies codec action before after).1)
          ≡ some (diff_audit_json codec.decode before after))
parse_audit_diff_after-compress_audit_bodies codec action before after raw update changed enc fits =
    let found = diff_audit_json codec.decode before after in
    let stored = stored_update codec action before after raw update changed enc fits in
    (
      ap (λ p. p.0) stored,
      ap (λ p. parse_audit_diff_after codec.decode_envelope (runes_of p.1)) stored
          ∙ ap (λ s. parse_audit_diff_after codec.decode_envelope s) (runes_of-utf8 raw enc.valid)
          ∙ parse_audit_diff_after-IsEncoded codec found raw enc,
    )
