-- ===== src/Row/Bounds.antt =====
-- The sizes of what a row holds.
use middle.Prelude.{
  ℕ, ◌+◌, ◌≤◌, false, List, [], ◌∷◌, Option, ◌≡◌, arith, refl, Bool-cases, inl, inr, length, leb,
  eqb, length-take-le,
}
use middle.Text.{Text}
use middle.Body.{truncate_runes}
use middle.Uri.{Url}
use middle.Client.{Table, init_clients}
use middle.Client.Resolve.{registered, resolve_client-IsCode}
use middle.Compress.{max_audit_hot_bytes}
use middle.Compress.Bounds.{length-compress_audit_bodies}
use middle.Row.{Logged, Now}
use middle.Row.Operation.{Env, Model, parse_operation_fields, operation_model}

pub length-truncate_runes : (s : Text) (n : ℕ) → eqb n 0 ≡ false → length (truncate_runes s n) ≤ n
unfolding truncate_runes
length-truncate_runes [] n h = ground (arith, h)
length-truncate_runes (c ∷ s) n h = elim (Bool-cases (leb (length (c ∷ s)) n)) [
  | inl fits ↦ rw (h, fits) (ground (arith, fits))
  | inr long ↦ rw (h, long) (length-take-le n (c ∷ s))
]

pub record IsBounded (m : Model) : Type 0 where
  pub user_agent : length m.fields.user_agent ≤ 240
  pub device_id : length m.fields.device_id ≤ 128
  pub client : length m.fields.client ≤ 32
  pub client_version : length m.fields.client_version ≤ 32
  pub before : length m.before ≤ max_audit_hot_bytes + 3
  pub after : length m.after ≤ max_audit_hot_bytes + 3

-- Whatever a client sends, a row holds at most 240 runes of its user agent, 128 of its device id, 32
-- of the code and of the version of the client, and 8195 bytes of each body.
pub operation_model-IsBounded :
    (env : Env) (audit_clients audit_client_hosts : Text) (more : Table) (now : Now) (c : Logged)
    (url : Option (Url (env.urls.Rest))) (payload : List ℕ)
    → env.clients ≡ registered more (init_clients audit_clients audit_client_hosts)
    → IsBounded (operation_model env now c url payload)
unfolding operation_model parse_operation_fields
operation_model-IsBounded env a h more now c url payload same =
    let bodies = length-compress_audit_bodies env.codec _ _ _ in
    let (_, code, version) = resolve_client-IsCode env.url_host a h more c.client in
    record {
      user_agent = length-truncate_runes c.user_agent 240 refl;
      device_id = length-truncate_runes _ 128 refl;
      client = rw same code;
      client_version = rw same version;
      before = bodies.0;
      after = bodies.1;
    }
