-- ===== src/Client/Tests.antt =====
-- Requests of audit_client_test.go, and the theorems at them.
use middle.Prelude.{
  ◌≤◌, false, not, ◌&&◌, [], ◌∷◌, Option, none, some, length, ◌≡◌, ◌≢◌, refl, if◌then◌else◌, arith,
}
use middle.Text.{Text, runes, text_runs, is_empty, ◌==◌, trim_space, to_lower}
use middle.Client.{
  put, lookup_name, Clients, all_runes, matches_code, normalize_client_code, matches_version,
  normalize_client_version, add_pairs, parse_pairs, add_names, add_hosts, init_clients,
  register_client, client_name, client_from_host, ClientRequest, first_host, resolve_client,
}
use middle.Client.Resolve.{registered, IsCodeOrEmpty, resolve_client-IsCode}
use middle.Client.Names.{client_name-register_client}

abbrev url_host : Text → Option Text
url_host s =
    if s == runes "https://shop.tenant.example.com/x"
    then some (runes "shop.tenant.example.com:443")
    else none

abbrev start : Clients
start = init_clients (runes " X7 = 收银台,bad code=x") (runes "Kiosk=X7")

abbrev req : ClientRequest
req = record {
  client_id = runes "not valid!";
  client_version = runes "v0.0.118";
  wechat_app_id = [];
  mini_program = false;
  origin = runes "https://shop.tenant.example.com/x";
  referer = [];
  host = runes "kiosk.example.com";
}

tenant_host : resolve_client url_host start req ≡ (runes "x9", runes "0.0.118")
unfolding resolve_client first_host client_from_host init_clients add_names add_hosts parse_pairs
    add_pairs put lookup_name normalize_client_code normalize_client_version matches_code
    matches_version all_runes text_runs
tenant_host = refl

kiosk_host :
    resolve_client url_host start (record req { origin = [] }) ≡ (runes "x7", runes "0.0.118")
unfolding resolve_client first_host client_from_host init_clients add_names add_hosts parse_pairs
    add_pairs put lookup_name normalize_client_code normalize_client_version matches_code
    matches_version all_runes text_runs
kiosk_host = refl

named : client_name start (runes "X7") ≡ runes "收银台"
unfolding client_name init_clients add_names add_hosts parse_pairs add_pairs put lookup_name
    normalize_client_code matches_code all_runes text_runs
named = refl

resolve_client-IsCode_example :
    IsCodeOrEmpty (resolve_client url_host (registered ((runes "x8", runes "n") ∷ []) start) req).0
    × (length (resolve_client url_host (registered ((runes "x8", runes "n") ∷ []) start) req).0
        ≤ 32)
    × (length (resolve_client url_host (registered ((runes "x8", runes "n") ∷ []) start) req).1
        ≤ 32)
resolve_client-IsCode_example =
    resolve_client-IsCode url_host (runes " X7 = 收银台,bad code=x") (runes "Kiosk=X7")
      ((runes "x8", runes "n") ∷ []) req

code_given : (normalize_client_code (runes " X8 ") ≢ []) × (trim_space (runes " 新 ") ≢ [])
unfolding normalize_client_code matches_code all_runes text_runs
code_given = (λ e. ground arith, λ e. ground arith)

client_name-register_client_instance :
    client_name (register_client (runes " X8 ") (runes " 新 ") start) (runes "x8") ≡ (
      if not (is_empty (trim_space (runes "x8")))
        && normalize_client_code (runes " X8 ") == to_lower (trim_space (runes "x8"))
      then trim_space (runes " 新 ")
      else client_name start (runes "x8"))
client_name-register_client_instance =
    client_name-register_client (runes " X8 ") (runes " 新 ") start (runes "x8") (code_given.0)
      (code_given.1)
