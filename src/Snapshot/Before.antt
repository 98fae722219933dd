-- ===== src/Snapshot/Before.antt =====
-- What is kept as the document before a write.
use middle.Prelude.{
  ℕ, ◌≤◌, true, List, [], Option, none, some, length, take, length-take-le, ◌≡◌, ◌≢◌, ◌⊎◌, inl, inr,
  refl, arith, Option-cases,
}
use middle.Text.{Text, runes}
use middle.Text.Equality.{eq_iff}
use middle.Json.{Fields}
use middle.Snapshot.{
  Registry, collection_for, sanitize_doc, is_object_id, max_snapshot_bytes, Store, stored_before,
  Target, target_id, load_before, snapshot,
}

-- A kept document is one of the registered collection, sanitised, and within the limit.
pub record IsKept (store : Store) (reg : Registry) (method : Text) (t : Target) (raw : List ℕ)
    : Type 0 where
  pub writes : (method ≡ runes "PUT") ⊎ ((method ≡ runes "PATCH") ⊎ (method ≡ runes "DELETE"))
  pub identified : is_object_id (target_id t) ≡ true
  pub registered : collection_for reg t.full_path t.url_path ≢ []
  pub doc : Fields
  pub found : store.find_one (collection_for reg t.full_path t.url_path) (target_id t) ≡ some doc
  pub printed : List ℕ
  pub marshalled : store.marshal (sanitize_doc doc) ≡ some printed
  pub bounded : length raw ≤ max_snapshot_bytes
  pub start : (raw ≡ printed) ⊎ (raw ≡ take max_snapshot_bytes printed)

snapshot_found :
    (store : Store) (reg : Registry) (method : Text) (t : Target) (raw : List ℕ)
    → snapshot store reg method t ≡ some raw
    → ((method ≡ runes "PUT") ⊎ ((method ≡ runes "PATCH") ⊎ (method ≡ runes "DELETE")))
      × (is_object_id (target_id t) ≡ true)
      × (collection_for reg t.full_path t.url_path ≢ [])
      × (raw ≢ [])
      × (stored_before store
            (store.find_one (collection_for reg t.full_path t.url_path) (target_id t))
          ≡ raw)
unfolding snapshot load_before
snapshot_found store reg method t raw h = (
  ground (
    arith,
    eq_iff method (runes "PUT"),
    eq_iff method (runes "PATCH"),
    eq_iff method (runes "DELETE"),
  ),
  ground arith,
  ground arith,
  ground arith,
  ground arith,
)

stored_before_found :
    (store : Store) (o : Option Fields) (raw : List ℕ)
    → stored_before store o ≡ raw
    → raw ≢ []
    → (doc : Fields) × (printed : List ℕ) × (o ≡ some doc)
      × (store.marshal (sanitize_doc doc) ≡ some printed)
      × (length raw ≤ max_snapshot_bytes)
      × ((raw ≡ printed) ⊎ (raw ≡ take max_snapshot_bytes printed))
stored_before_found store none raw h ne = absurd (ground arith)
stored_before_found store (some doc) raw h ne =
    elim (Option-cases (store.marshal (sanitize_doc doc))) [
      | inl failed ↦ absurd (ground arith)
      | inr (printed, e) ↦ (
        doc,
        printed,
        refl,
        e,
        ground (arith, length-take-le max_snapshot_bytes printed),
        ground arith,
      )
    ]

-- Whatever is put under "Before" was asked for by a write with an id, and is the start of the
-- printed, sanitised document that the registered collection has under that id.
pub snapshot-IsKept :
    (store : Store) (reg : Registry) (method : Text) (t : Target) (raw : List ℕ)
    → snapshot store reg method t ≡ some raw
    → IsKept store reg method t raw
snapshot-IsKept store reg method t raw h =
    let (writes, identified, registered, full, found) = snapshot_found store reg method t raw h in
    let (doc, printed, there, marshalled, bounded, start) =
      stored_before_found store _ raw found full in
    record {
      writes = writes;
      identified = identified;
      registered = registered;
      doc = doc;
      found = there;
      printed = printed;
      marshalled = marshalled;
      bounded = bounded;
      start = start;
    }
