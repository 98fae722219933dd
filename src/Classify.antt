-- ===== src/Classify.antt =====
-- oplog_classify.go: the service and module of an API path.
mod Tables
pub mod Total
mod Tests
unfoldable pub use Tables.{
  namespaces, services, platforms, orphans, zh_service, zh_module, member, lookup,
}
pub use Tables.{Orphan}
use middle.Prelude.{
  Bool, true, false, ◌&&◌, ◌||◌, not, List, [], ◌∷◌, ◌++◌, Option, none, some, any, if◌then◌else◌,
}
use middle.Text.{
  Text, runes, is_empty, ◌==◌, trim_space, to_lower, has_prefix, before_first, split, text_runs,
}

pub record PathClass : Type 0 where
  pub namespace : Text
  pub service : Text
  pub module' : Text
  pub resource : Text
  pub label : Text

-- One part of a split path, as `pathSegments` keeps it.
abbrev keeps : Text → Bool
keeps part = not (is_empty part || has_prefix part (runes ":"))

unfoldable pub trimmed_segments : List Text → List Text
trimmed_segments [] = []
trimmed_segments (part ∷ parts) =
    let p = trim_space part in
    let rest = trimmed_segments parts in if keeps p then p ∷ rest else rest

abbrev pub drop_version : List Text → List Text
drop_version [] = []
drop_version (s ∷ segs) = if s == runes "v1" then segs else s ∷ segs

unfoldable pub path_segments : Text → List Text
path_segments path =
    drop_version (trimmed_segments (split b'/' (to_lower (before_first b'?' path))))

unfoldable pub has_segment : List Text → Text → Bool
has_segment parts want = any (λ part. part == want) parts

unfoldable pub alias_module : Text → Text → Text
alias_module service module' =
    if module' == runes "mp-dist"
    then runes "mp"
    else if module' == runes "notify" && service == runes "client"
    then runes "notification"
    else if module' == runes "address" && service == runes "member"
    then runes "addresses"
    else module'

-- The loop of `pickModule`, with the first platform that was skipped.
unfoldable pub pick_from : Text → Text → List Text → Text
pick_from service skipped [] = if is_empty skipped then [] else alias_module service skipped
pick_from service skipped (part ∷ parts) =
    let onward = pick_from service (if is_empty skipped then part else skipped) parts in
    if member part platforms then onward else alias_module service part

unfoldable pub pick_module : Text → List Text → Text
pick_module service parts = pick_from service [] parts

unfoldable pub legacy_member : Text → Text
legacy_member m =
    if m == runes "addresses" || m == runes "address"
    then runes "member_address"
    else if m == runes "level"
    then runes "member_level"
    else runes "member"

unfoldable pub legacy_auth : Text → Text
legacy_auth m =
    if m == runes "account"
    then runes "admin_account"
    else if m == runes "role"
    then runes "role"
    else if m == runes "tenant"
    then runes "tenant"
    else if m == runes "app"
    then runes "app"
    else if m == runes "password"
    then runes "password"
    else if is_empty m
    then runes "auth"
    else m

unfoldable pub legacy_resource : Text → Text → Text
legacy_resource service m =
    if service == runes "fs"
    then runes "image"
    else if service == runes "member"
    then legacy_member m
    else if service == runes "auth"
    then legacy_auth m
    else if service == runes "active"
    then runes "campaign"
    else service

-- `m[k]` of a map of strings: "" for a missing key.
abbrev pub or_empty : Option Text → Text
or_empty none = []
or_empty (some s) = s

unfoldable pub zh_class_label : Text → Text → Text
zh_class_label service m =
    let found = or_empty (lookup service zh_service) in
    let svc = if is_empty found then service else found in
    let named : Text = elim (lookup service zh_module) [
      | none ↦ []
      | some table ↦ or_empty (lookup m table)
    ] in
    let mod' = if is_empty named then m else named in
    if is_empty mod' then svc else svc ++ (runes " · " ++ mod')

abbrev pub other_class : PathClass
other_class = record {
  namespace = [];
  service = [];
  module' = [];
  resource = runes "other";
  label = runes "其他";
}

unfoldable pub finish_class : Text → Text → Text → PathClass
finish_class ns service m = if is_empty service then other_class else record {
  namespace = ns;
  service = service;
  module' = m;
  resource = legacy_resource service m;
  label = zh_class_label service m;
}

-- `ClassifyPath` from the service on.
unfoldable pub classify_service : Text → Text → List Text → PathClass
classify_service ns service parts =
    let m = pick_module service parts in
    let image =
      service == runes "fs"
      && (is_empty m || m == runes "client" || has_segment parts (runes "image")) in
    finish_class ns service (if image then runes "image" else m)

unfoldable pub classify_segments : Text → List Text → PathClass
classify_segments ns [] = other_class
classify_segments ns (service ∷ parts) =
    if member service services
    then classify_service ns service parts
    else elim (lookup service orphans) [
      | none ↦ other_class
      | some o ↦ classify_service ns o.service (o.module' ∷ parts)
    ]

unfoldable pub classify_named : List Text → PathClass
classify_named [] = other_class
classify_named (s ∷ segs) =
    if member s namespaces then classify_segments s segs else classify_segments [] (s ∷ segs)

unfoldable pub classify_path : Text → PathClass
classify_path path = classify_named (path_segments path)

-- oplog.go: `ClassifyResource`
unfoldable pub classify_resource : Text → Text × Text
classify_resource path =
    let class = classify_path path in
    if is_empty class.resource then (runes "other", runes "其他") else (class.resource, class.label)

-- Named on the `unfolding` line of a test, it opens every function above.
unfoldable pub classify_runs : Unit {0}
unfolding text_runs member lookup trimmed_segments path_segments has_segment alias_module pick_from
    pick_module legacy_member legacy_auth legacy_resource zh_class_label finish_class
    classify_service classify_segments classify_named classify_path classify_resource
classify_runs = tt
