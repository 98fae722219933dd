-- ===== src/ClientIp.antt =====
-- clientip.go: the address of a visitor behind Cloudflare and nginx, and where it is. Addresses are
-- those of net/netip, the parameter NetIp.
pub mod Trust
mod Tests
use middle.Prelude.{
  Bool, true, false, ◌&&◌, ◌||◌, not, List, [], ◌∷◌, Option, none, some, any, ◌≡◌, if◌then◌else◌,
}
use middle.Text.{Text, runes, is_empty, trim_space, before_first}

-- `ParseAddr` with `Unmap`, `String`, `Prefix.Contains` of a prefix in its text, and the four
-- questions of LocateIPZH. The law is the documentation of `String`: what it prints parses to the
-- same address.
pub record NetIp : Type 1 where
  pub Addr : Type 0
  pub parse_addr : Text → Option Addr
  pub string : Addr → Text
  pub contains : Text → Addr → Bool
  pub is_loopback : Addr → Bool
  pub is_private : Addr → Bool
  pub is_link_local_unicast : Addr → Bool
  pub is_unspecified : Addr → Bool
  pub parse_string : (a : Addr) → parse_addr (trim_space (string a)) ≡ some a

abbrev pub cloudflare_cidrs : List Text
cloudflare_cidrs =
    runes "173.245.48.0/20"
    ∷ runes "103.21.244.0/22"
    ∷ runes "103.22.200.0/22"
    ∷ runes "103.31.4.0/22"
    ∷ runes "141.101.64.0/18"
    ∷ runes "108.162.192.0/18"
    ∷ runes "190.93.240.0/20"
    ∷ runes "188.114.96.0/20"
    ∷ runes "197.234.240.0/22"
    ∷ runes "198.41.128.0/17"
    ∷ runes "162.158.0.0/15"
    ∷ runes "104.16.0.0/13"
    ∷ runes "104.24.0.0/14"
    ∷ runes "172.64.0.0/13"
    ∷ runes "131.0.72.0/22"
    ∷ runes "2400:cb00::/32"
    ∷ runes "2606:4700::/32"
    ∷ runes "2803:f800::/32"
    ∷ runes "2405:b500::/32"
    ∷ runes "2405:8100::/32"
    ∷ runes "2a06:98c0::/29"
    ∷ runes "2c0f:f248::/32"
    ∷ []

-- What clientRemoteIP reads: three headers and `c.ClientIP()`.
pub record Visit : Type 0 where
  pub x_real_ip : Text
  pub x_forwarded_for : Text
  pub cf_connecting_ip : Text
  pub client_ip : Text

module _ (net : NetIp) where
  abbrev pub in_cloudflare : Option (net.Addr) → Bool
  in_cloudflare none = false
  in_cloudflare (some a) = any (λ p. net.contains p a) cloudflare_cidrs

  unfoldable pub is_cloudflare_ip : Text → Bool
  is_cloudflare_ip ip = in_cloudflare (net.parse_addr (trim_space ip))

  abbrev pub printed : Option (net.Addr) → Text
  printed none = []
  printed (some a) = net.string a

  unfoldable pub valid_ip : Text → Text
  valid_ip s = printed (net.parse_addr (trim_space s))

  -- `validIP(strings.Split(v, ",")[0])`, if the header is there.
  abbrev pub first_ip : Text → Text
  first_ip v = if is_empty v then [] else valid_ip (before_first b',' v)

  -- The address of the peer: the first of the three sources that has a valid one.
  unfoldable pub peer_ip : Visit → Text
  peer_ip v =
      if not (is_empty (first_ip v.x_real_ip))
      then first_ip v.x_real_ip
      else if not (is_empty (first_ip v.x_forwarded_for))
      then first_ip v.x_forwarded_for
      else valid_ip v.client_ip

  unfoldable pub client_remote_ip : Visit → Text
  client_remote_ip v =
      let peer = peer_ip v in
      if not (is_empty peer)
        && is_cloudflare_ip peer
        && not (is_empty (valid_ip v.cf_connecting_ip))
      then valid_ip v.cf_connecting_ip
      else if is_empty peer
      then v.client_ip
      else peer

  -- `LocateIPZH` on the parsed address; a locator that was not set is `none`.
  abbrev pub located : Option (Text → Text) → Text → Option (net.Addr) → Text
  located locator ip none = []
  located locator ip (some a) =
      if net.is_loopback a
        || net.is_private a
        || net.is_link_local_unicast a
        || net.is_unspecified a
      then runes "内网地址"
      else elim locator [ none ↦ [] | some l ↦ l ip ]

  -- `MustParseAddr` is given what `validIP` printed.
  unfoldable pub locate_ip_zh : Option (Text → Text) → Text → Text
  locate_ip_zh locator ip =
      if is_empty (valid_ip ip)
      then []
      else located locator (valid_ip ip) (net.parse_addr (valid_ip ip))
