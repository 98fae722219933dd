-- ===== src/ClientIp/Tests.antt =====
-- Addresses as their own text: an address is valid if it begins with a digit and holds no space.
use middle.Prelude.{Bool, true, false, [], Option, none, some, ◌≡◌, ◌⊎◌, refl, if◌then◌else◌}
use middle.Text.{Text, runes, text_runs, ◌==◌, trim_space}
use middle.ClientIp.{
  NetIp, Visit, is_cloudflare_ip, valid_ip, peer_ip, client_remote_ip, locate_ip_zh,
}
use middle.ClientIp.Trust.{IsAddress, client_remote_ip_cases, client_remote_ip_forged}

-- An address of the tests, by the number in its text.
data Addr : Type 0 where
  edge visitor local : Addr

abbrev text_of : Addr → Text
text_of edge = runes "173.245.48.1"
text_of visitor = runes "203.0.113.9"
text_of local = runes "10.0.0.2"

addr_of : Text → Option Addr
unfolding ◌==◌
addr_of s =
    if s == runes "173.245.48.1"
    then some edge
    else if s == runes "203.0.113.9"
    then some visitor
    else if s == runes "10.0.0.2"
    then some local
    else none

printed_parses : (a : Addr) → addr_of (trim_space (text_of a)) ≡ some a
unfolding addr_of text_runs
printed_parses edge = refl
printed_parses visitor = refl
printed_parses local = refl

abbrev is_local : Addr → Bool
is_local local = true
is_local _ = false

abbrev is_edge : Text → Addr → Bool
is_edge p edge = true
is_edge p _ = false

abbrev net : NetIp
net = record {
  Addr = Addr;
  parse_addr = addr_of;
  string = text_of;
  contains = is_edge;
  is_loopback = λ a. false;
  is_private = is_local;
  is_link_local_unicast = λ a. false;
  is_unspecified = λ a. false;
  parse_string = printed_parses;
}

abbrev behind : Visit
behind = record {
  x_real_ip = runes "173.245.48.1";
  x_forwarded_for = [];
  cf_connecting_ip = runes " 203.0.113.9";
  client_ip = runes "10.0.0.2";
}

abbrev direct : Visit
direct = record behind { x_real_ip = []; x_forwarded_for = runes "203.0.113.9, 10.0.0.2" }

believed : client_remote_ip net behind ≡ runes "203.0.113.9"
unfolding client_remote_ip peer_ip valid_ip is_cloudflare_ip addr_of text_runs
believed = refl

intranet : locate_ip_zh net none (runes "10.0.0.2") ≡ runes "内网地址"
unfolding locate_ip_zh valid_ip addr_of text_runs
intranet = refl

not_cloudflare : is_cloudflare_ip net (peer_ip net direct) ≡ false
unfolding peer_ip valid_ip is_cloudflare_ip addr_of text_runs
not_cloudflare = refl

client_remote_ip_forged_example :
    client_remote_ip net (record direct { cf_connecting_ip = runes "10.0.0.2" })
    ≡ client_remote_ip net direct
client_remote_ip_forged_example =
    client_remote_ip_forged net direct (runes "10.0.0.2") not_cloudflare

client_remote_ip_cases_instance :
    IsAddress net (client_remote_ip net behind)
    ⊎ ((client_remote_ip net behind ≡ behind.client_ip) × (peer_ip net behind ≡ []))
client_remote_ip_cases_instance = client_remote_ip_cases net behind
