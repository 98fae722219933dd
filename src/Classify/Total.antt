-- ===== src/Classify/Total.antt =====
-- Every path has a resource, and a service of the table unless it is classified as other.
use middle.Prelude.{
  Bool, true, false, ◌&&◌, List, [], ◌∷◌, some, ◌≡◌, ◌≢◌, inl, inr, refl, arith, Bool-cases,
  Option-cases,
}
use middle.Text.{Text, is_empty, ◌==◌}
use middle.Classify.{
  PathClass, Orphan, member, lookup, namespaces, services, orphans, legacy_member, legacy_auth,
  legacy_resource, finish_class, classify_service, classify_segments, classify_named, classify_path,
  classify_resource, other_class, zh_class_label, path_segments,
}

-- Every orphan belongs to a service of the table.
all_orphans : List (Text × Orphan) → Bool
all_orphans [] = true
all_orphans ((k, o) ∷ rest) = member o.service services && all_orphans rest

orphans_checked : all_orphans orphans ≡ true
unfolding all_orphans member ◌==◌
orphans_checked = refl

all_orphans-lookup :
    (table : List (Text × Orphan)) (s : Text) (o : Orphan)
    → all_orphans table ≡ true
    → lookup s table ≡ some o
    → member o.service services ≡ true
unfolding all_orphans lookup
all_orphans-lookup [] s o h e = cc
all_orphans-lookup ((k, p) ∷ rest) s o h e = elim (Bool-cases (k == s)) [
  | inl same ↦ ground arith
  | inr other ↦ all_orphans-lookup rest s o (ground arith) (ground arith)
]

member_ne_nil : (s : Text) → member s services ≡ true → is_empty s ≡ false
unfolding member ◌==◌
member_ne_nil [] h = cc
member_ne_nil (c ∷ s) h = refl

legacy_member_ne_nil : (m : Text) → is_empty (legacy_member m) ≡ false
unfolding legacy_member
legacy_member_ne_nil m = ground arith

legacy_auth_ne_nil : (m : Text) → is_empty (legacy_auth m) ≡ false
unfolding legacy_auth
legacy_auth_ne_nil m = ground arith

legacy_resource_ne_nil : (s m : Text) → is_empty s ≡ false → is_empty (legacy_resource s m) ≡ false
unfolding legacy_resource
legacy_resource_ne_nil s m h = ground (arith, legacy_member_ne_nil m, legacy_auth_ne_nil m)

-- What holds of the class of a path.
pub data IsClassified (p : PathClass) : Type 0 where
  other : p ≡ other_class → IsClassified p
  known :
      member p.service services ≡ true
      → p.resource ≡ legacy_resource p.service p.module'
      → p.label ≡ zh_class_label p.service p.module'
      → IsClassified p

classify_service-IsClassified :
    (ns service : Text) (parts : List Text)
    → member service services ≡ true
    → IsClassified (classify_service ns service parts)
unfolding classify_service finish_class
classify_service-IsClassified ns service parts h = rw (member_ne_nil service h) (known h refl refl)

classify_segments-IsClassified :
    (ns : Text) (segs : List Text) → IsClassified (classify_segments ns segs)
unfolding classify_segments
classify_segments-IsClassified ns [] = other refl
classify_segments-IsClassified ns (service ∷ parts) = elim (Bool-cases (member service services)) [
  | inl h ↦ rw h (classify_service-IsClassified ns service parts h)
  | inr h ↦ elim (Option-cases (lookup service orphans)) [
    | inl missing ↦ rw (h, missing) (other refl)
    | inr (o, found) ↦
        rw (h, found)
          (classify_service-IsClassified ns o.service (o.module' ∷ parts)
            (all_orphans-lookup orphans service o orphans_checked found))
  ]
]

-- Every path is classified as other, with no service, or under a service of the table, with the
-- resource and the label that belong to its service and module.
pub classify_path-IsClassified : (path : Text) → IsClassified (classify_path path)
unfolding classify_path classify_named
classify_path-IsClassified path = go (path_segments path)
  where
    go : (segs : List Text) → IsClassified (classify_named segs)
    go [] = other refl
    go (s ∷ segs) = elim (Bool-cases (member s namespaces)) [
      | inl h ↦ rw h (classify_segments-IsClassified s segs)
      | inr h ↦ rw h (classify_segments-IsClassified [] (s ∷ segs))
    ]

IsClassified-resource : {p : PathClass} → IsClassified p → is_empty p.resource ≡ false
IsClassified-resource (other e) = rw e
IsClassified-resource {p} (known h e _) =
    rw e (legacy_resource_ne_nil p.service p.module' (member_ne_nil p.service h))

-- No resource is empty, so `ClassifyResource` never takes its fallback.
pub classify_resource_lem :
    (path : Text)
    → ((classify_path path).resource ≢ [])
      × (classify_resource path ≡ ((classify_path path).resource, (classify_path path).label))
unfolding classify_resource
classify_resource_lem path =
    let full = IsClassified-resource (classify_path-IsClassified path) in (ground arith, rw full)
