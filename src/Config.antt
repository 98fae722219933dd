-- ===== src/Config.antt =====
-- The settings that the program reads through viper (and nothing else of viper), and the functions
-- of Go's package net that it calls on addresses.
use middle.Prelude.{Bool, ◌&&◌, not, List, [], ◌∷◌, Option, none, some, if◌then◌else◌, eqb}
use middle.Text.{Text, cut, cut_last, has_rune}

pub record Config : Type 0 where
  pub super_domain : Text
  pub super_allow_localhost : Bool
  pub super_merchants : List Text
  pub super_merchant : Text
  pub trusted_proxies : List Text
  pub gateway_token : Text
  pub gateway_allow_unverified : Bool
  pub rpc_auth_token : Text
  pub rpc_token : Text
  pub rpc_allow_unauthenticated : Bool
  pub otp_allow_legacy_jwt_secret : Bool

-- Addresses are abstract: `net.ParseIP`, `IP.Equal`, and `net.ParseCIDR` with `IPNet.Contains`.
pub record Net : Type 1 where
  pub Addr : Type 0
  pub parse_ip : Text → Option Addr
  pub same_ip : Addr → Addr → Bool
  pub parse_cidr : Text → Option (Addr → Bool)

-- `net.SplitHostPort` on "[host]:port", behind the opening bracket: the closing bracket stands
-- directly before the last colon, and there is no other bracket.
split_bracketed : Text → Option Text
split_bracketed r = elim (cut b']' r) [
  | none ↦ none
  | some (h, tail) ↦ elim tail [
    | [] ↦ none
    | c ∷ port ↦
        if eqb c b':'
          && not (has_rune b':' port)
          && not (has_rune b'[' r)
          && not (has_rune b']' (c ∷ port))
        then some h
        else none
  ]
]

-- The host of `net.SplitHostPort(s)`, or `none` where it returns an error.
unfoldable pub split_host_port : Text → Option Text
unfolding split_bracketed cut cut_last has_rune
split_host_port [] = none
split_host_port (c ∷ s) = elim (cut_last b':' (c ∷ s)) [
  | none ↦ none
  | some (h, port) ↦
      if eqb c b'['
      then split_bracketed s
      else if not (has_rune b':' h) && not (has_rune b'[' (c ∷ s)) && not (has_rune b']' (c ∷ s))
      then some h
      else none
]
