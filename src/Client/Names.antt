-- ===== src/Client/Names.antt =====
-- What a registration changes.
use middle.Prelude.{
  ◌&&◌, ◌||◌, not, [], ◌∷◌, some, ◌≡◌, ◌≢◌, refl, arith, Bool-cases, inl, inr, if◌then◌else◌,
}
use middle.Text.{Text, is_empty, ◌==◌, trim_space, to_lower}
use middle.Text.Equality.{eq_iff}
use middle.Client.{
  Table, put, lookup_name, Clients, normalize_client_code, register_client, client_name,
}

lookup_name-put :
    (k v : Text) (m : Table) (key : Text)
    → lookup_name (put k v m) key ≡ (if k == key then some v else lookup_name m key)
unfolding put lookup_name
lookup_name-put k v [] key = refl
lookup_name-put k v ((k', v') ∷ m) key = elim (Bool-cases (k' == k)) [
  | inl e ↦ rw e (ground (arith, eq_iff k' k))
  | inr e ↦
      rw e (ground (arith, lookup_name-put k v m key, eq_iff k' k, eq_iff k key, eq_iff k' key))
]

-- After a registration with a code and a name the code has that name, in whatever case it is asked
-- for, and every other code keeps its own.
pub client_name-register_client :
    (code name : Text) (st : Clients) (asked : Text)
    → normalize_client_code code ≢ []
    → trim_space name ≢ []
    → client_name (register_client code name st) asked ≡ (
        if not (is_empty (trim_space asked))
          && normalize_client_code code == to_lower (trim_space asked)
        then trim_space name
        else client_name st asked)
unfolding client_name register_client
client_name-register_client code name st asked hc hn =
    elim (Bool-cases (is_empty (normalize_client_code code) || is_empty (trim_space name))) [
      | inl e ↦ absurd (ground arith)
      | inr e ↦ elim (Bool-cases (is_empty (trim_space asked))) [
        | inl blank ↦ rw (e, blank) refl
        | inr full ↦
            let found =
              lookup_name-put (normalize_client_code code) (trim_space name) st.names
                (to_lower (trim_space asked)) in
            elim (Bool-cases (normalize_client_code code == to_lower (trim_space asked))) [
              | inl same ↦ rw (e, full, found, same) refl
              | inr other ↦ rw (e, full, found, other) refl
            ]
      ]
    ]
