-- ===== src/Client/Resolve.antt =====
-- What ResolveClient gives to the log, whatever a request says.
use middle.Prelude.{
  ◌≤◌, true, ◌||◌, not, List, [], ◌∷◌, Option, none, some, length, ◌≡◌, ◌⊎◌, refl, ◌∙◌, arith,
  Bool-cases, inl, inr,
}
use middle.Text.{Text, runes, is_empty, trim_space, contains, before_first}
use middle.Client.{
  Table, Clients, all_runes, matches_code, normalize_client_code, matches_version, without_v,
  normalize_client_version, parse_pairs, init_clients, register_client, code_of_host, host_name,
  client_from_host, ClientRequest, first_host, resolve_client,
}
use middle.Client.Codes.{
  IsCode, AllCodes, IsCode-full, normalize_client_code_cases, lookup_name-AllCodes,
  add_hosts-AllCodes, default_hosts-AllCodes,
}

-- The tables of a process: those of the start, with the clients that were registered since.
abbrev pub registered : Table → Clients → Clients
registered [] st = st
registered ((code, name) ∷ more) st = registered more (register_client code name st)

registered_hosts : (more : Table) (st : Clients) → (registered more st).hosts ≡ st.hosts
unfolding register_client
registered_hosts [] st = refl
registered_hosts ((code, name) ∷ more) st =
    registered_hosts more (register_client code name st) ∙ ground arith

init_clients-AllCodes :
    (a h : Text) (more : Table) → AllCodes (registered more (init_clients a h)).hosts
unfolding init_clients
init_clients-AllCodes a h more =
    rw (registered_hosts more (init_clients a h))
      (add_hosts-AllCodes (parse_pairs h) _ default_hosts-AllCodes)

-- Empty, or a code.
abbrev pub IsCodeOrEmpty : Text → Type 0
IsCodeOrEmpty c = (c ≡ []) ⊎ IsCode c

code_of_host-IsCodeOrEmpty :
    (st : Clients) (host : Option Text) → AllCodes st.hosts → IsCodeOrEmpty (code_of_host st host)
code_of_host-IsCodeOrEmpty st none a = inl refl
code_of_host-IsCodeOrEmpty st (some host) a =
    elim (Bool-cases (contains (host_name host) (runes ".tenant."))) [
      | inl e ↦ rw e (lookup_name-AllCodes st.hosts (runes "admin") a)
      | inr e ↦ rw e (lookup_name-AllCodes st.hosts (before_first b'.' (host_name host)) a)
    ]

client_from_host-IsCodeOrEmpty :
    (url_host : Text → Option Text) (st : Clients) (raw : Text)
    → AllCodes st.hosts
    → IsCodeOrEmpty (client_from_host url_host st raw)
unfolding client_from_host
client_from_host-IsCodeOrEmpty url_host st raw a = elim (Bool-cases (is_empty (trim_space raw))) [
  | inl e ↦ rw e (inl refl)
  | inr e ↦ rw e (code_of_host-IsCodeOrEmpty st _ a)
]

first_host-IsCodeOrEmpty :
    (url_host : Text → Option Text) (st : Clients) (hs : List Text)
    → AllCodes st.hosts
    → IsCodeOrEmpty (first_host url_host st hs)
unfolding first_host
first_host-IsCodeOrEmpty url_host st [] a = inl refl
first_host-IsCodeOrEmpty url_host st (h ∷ rest) a =
    elim (Bool-cases (is_empty (client_from_host url_host st h))) [
      | inl e ↦ rw e (first_host-IsCodeOrEmpty url_host st rest a)
      | inr e ↦ rw e (client_from_host-IsCodeOrEmpty url_host st h a)
    ]

x2-IsCode : IsCode (runes "x2")
unfolding matches_code all_runes
x2-IsCode = refl

IsCode-length : (c : Text) → IsCodeOrEmpty c → length c ≤ 32
unfolding matches_code
IsCode-length [] h = omega arith
IsCode-length (c ∷ s) (inl e) = absurd (ground arith)
IsCode-length (c ∷ s) (inr ok) = ground arith

matches_version_bound : (v : Text) → matches_version v ≡ true → length v ≤ 32
unfolding matches_version
matches_version_bound [] h = omega arith
matches_version_bound (c ∷ s) h = ground arith

version_bound : (v : Text) → length (normalize_client_version v) ≤ 32
unfolding normalize_client_version
version_bound v = elim (Bool-cases (matches_version (without_v (trim_space v)))) [
  | inl ok ↦ rw ok (matches_version_bound (without_v (trim_space v)) ok)
  | inr bad ↦ rw bad (omega arith)
]

resolve_client-IsCodeOrEmpty :
    (url_host : Text → Option Text) (st : Clients) (r : ClientRequest)
    → AllCodes st.hosts
    → IsCodeOrEmpty (resolve_client url_host st r).0
      × (length (resolve_client url_host st r).1 ≤ 32)
unfolding resolve_client
resolve_client-IsCodeOrEmpty url_host st r a = elim (normalize_client_code_cases r.client_id) [
  | inr (ok, lower) ↦
      rw (IsCode-full (normalize_client_code r.client_id) ok)
        (inr ok, version_bound r.client_version)
  | inl e ↦ elim (Bool-cases (not (is_empty r.wechat_app_id) || r.mini_program)) [
    | inl mini ↦ rw (e, mini) (inr x2-IsCode, version_bound r.client_version)
    | inr other ↦
        rw (e, other)
          (
            first_host-IsCodeOrEmpty url_host st (r.origin ∷ r.referer ∷ r.host ∷ []) a,
            version_bound r.client_version,
          )
  ]
]

-- Whatever a request says of its client, the log gets no code or a well-formed one, and a code and
-- a version of at most 32 runes: in every process, whatever its environment and its registrations.
pub resolve_client-IsCode :
    (url_host : Text → Option Text) (audit_clients audit_client_hosts : Text) (more : Table)
    (r : ClientRequest)
    → let st = registered more (init_clients audit_clients audit_client_hosts) in
      IsCodeOrEmpty (resolve_client url_host st r).0
      × (length (resolve_client url_host st r).0 ≤ 32)
      × (length (resolve_client url_host st r).1 ≤ 32)
resolve_client-IsCode url_host a h more r =
    let st = registered more (init_clients a h) in
    let (code, version) =
      resolve_client-IsCodeOrEmpty url_host st r (init_clients-AllCodes a h more) in
    (code, IsCode-length (resolve_client url_host st r).0 code, version)
