-- ===== src/ClientIp/Trust.antt =====
-- Which header the address of a visitor is taken from.
use middle.Prelude.{
  Bool, true, false, ◌&&◌, not, [], ◌≡◌, ◌⊎◌, refl, arith, Bool-cases, Option-cases, inl, inr,
  if◌then◌else◌,
}
use middle.Text.{Text, is_empty, trim_space, before_first}
use middle.ClientIp.{NetIp, Visit, is_cloudflare_ip, valid_ip, peer_ip, client_remote_ip, first_ip}

module _ (net : NetIp) where
  -- The text is an address as netip prints it.
  abbrev pub IsAddress : Text → Type 0
  IsAddress s = valid_ip net s ≡ s

  abbrev pub IsAddressOrEmpty : Text → Type 0
  IsAddressOrEmpty s = (s ≡ []) ⊎ IsAddress s

  valid_ip-cases : (s : Text) → IsAddressOrEmpty (valid_ip net s)
  unfolding valid_ip
  valid_ip-cases s = elim (Option-cases (net.parse_addr (trim_space s))) [
    | inl bad ↦ rw bad (inl refl)
    | inr (a, ok) ↦ rw ok (inr (rw (net.parse_string a) refl))
  ]

  either :
      (b : Bool) (x y : Text)
      → IsAddressOrEmpty x
      → IsAddressOrEmpty y
      → IsAddressOrEmpty (if b then x else y)
  either true x y hx hy = hx
  either false x y hx hy = hy

  first_ip_cases : (v : Text) → IsAddressOrEmpty (first_ip net v)
  first_ip_cases v =
      either (is_empty v) [] (valid_ip net (before_first b',' v)) (inl refl) (valid_ip-cases _)

  peer_ip_cases : (v : Visit) → IsAddressOrEmpty (peer_ip net v)
  unfolding peer_ip
  peer_ip_cases v =
      either _ _ _ (first_ip_cases v.x_real_ip)
        (either _ _ _ (first_ip_cases v.x_forwarded_for) (valid_ip-cases v.client_ip))

  peer_ip_forged :
      (v : Visit) (forged : Text)
      → peer_ip net (record v { cf_connecting_ip = forged }) ≡ peer_ip net v
  unfolding peer_ip
  peer_ip_forged v forged = refl

  -- What is taken for the visitor is an address, unless no source has a valid one: then it is what
  -- gin gives, as it stands.
  pub client_remote_ip_cases :
      (v : Visit)
      → IsAddress (client_remote_ip net v)
        ⊎ ((client_remote_ip net v ≡ v.client_ip) × (peer_ip net v ≡ []))
  unfolding client_remote_ip
  client_remote_ip_cases v =
      elim (Bool-cases (
        not (is_empty (peer_ip net v))
        && is_cloudflare_ip net (peer_ip net v)
        && not (is_empty (valid_ip net v.cf_connecting_ip)))) [
          | inl behind ↦ elim (valid_ip-cases v.cf_connecting_ip) [
            | inl e ↦ absurd (ground arith)
            | inr address ↦ rw behind (inl address)
          ]
          | inr direct ↦ elim (Bool-cases (is_empty (peer_ip net v))) [
            | inl none_found ↦ rw (direct, none_found) (inr (refl, ground arith))
            | inr found ↦ elim (peer_ip_cases v) [
              | inl e ↦ absurd (ground arith)
              | inr address ↦ rw (direct, found) (inl address)
            ]
          ]
        ]

  -- CF-Connecting-IP is looked at only behind Cloudflare: from any other peer a forged one changes
  -- nothing.
  pub client_remote_ip_forged :
      (v : Visit) (forged : Text)
      → is_cloudflare_ip net (peer_ip net v) ≡ false
      → client_remote_ip net (record v { cf_connecting_ip = forged }) ≡ client_remote_ip net v
  unfolding client_remote_ip
  client_remote_ip_forged v forged direct =
      let same : peer_ip net (record v { cf_connecting_ip = forged }) ≡ peer_ip net v =
        peer_ip_forged v forged in
      ground arith
