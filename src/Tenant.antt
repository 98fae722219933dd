-- ===== src/Tenant.antt =====
-- tenant.go: which host is the super-admin console, and which login may switch merchant there.
use middle.Prelude.{Bool, true, false, ◌&&◌, not, [], none, some, if◌then◌else◌, any}
use middle.Text.{Text, runes, is_empty, ◌==◌, trim_space, to_lower, contains, before_first}
use middle.Http.{Context, get, x_forwarded_host, x_merchant_id}
use middle.Config.{Config, Net, split_host_port}
use middle.User.{LoginInfo}

abbrev pub local_super_host : Text
local_super_host = runes "super.localhost"

unfoldable pub hostname_only : Text → Text
hostname_only host =
    let h = trim_space host in
    if is_empty h
    then []
    else elim (split_host_port h) [ none ↦ to_lower h | some name ↦ to_lower name ]

-- One round of the loop of `isTrustedProxy`.
unfoldable pub trusts : (net : Net) → net.Addr → Text → Bool
trusts net ip entry =
    let e = trim_space entry in
    if is_empty e
    then false
    else if contains e (runes "/")
    then elim (net.parse_cidr e) [ none ↦ false | some holds ↦ holds ip ]
    else elim (net.parse_ip e) [ none ↦ false | some p ↦ net.same_ip p ip ]

abbrev pub peer_host : Text → Text
peer_host remote = elim (split_host_port (trim_space remote)) [
  | none ↦ trim_space remote
  | some host ↦ host
]

unfoldable pub is_trusted_proxy : Net → Config → Context → Bool
is_trusted_proxy net cfg c =
    if is_empty cfg.trusted_proxies then false else elim (net.parse_ip (peer_host c.remote_addr)) [
      | none ↦ false
      | some ip ↦ any (trusts net ip) cfg.trusted_proxies
    ]

unfoldable pub request_admin_host : Net → Config → Context → Text
request_admin_host net cfg c =
    let v = trim_space (get c.headers x_forwarded_host) in
    if is_trusted_proxy net cfg c && not (is_empty v)
    then trim_space (before_first b',' v)
    else c.host

unfoldable pub is_super_admin_host : Config → Text → Bool
is_super_admin_host cfg host =
    let h = hostname_only host in
    let super = hostname_only cfg.super_domain in
    if is_empty h
    then false
    else if not (is_empty super) && h == super
    then true
    else cfg.super_allow_localhost && h == local_super_host

unfoldable pub can_switch_merchant : Config → LoginInfo → Bool
can_switch_merchant cfg l =
    let mid = trim_space l.merchant_id in
    let m = trim_space cfg.super_merchant in
    if l.super_admin
    then true
    else if is_empty mid
    then false
    else if not (is_empty m) && m == mid
    then true
    else any (λ x. trim_space x == mid) cfg.super_merchants

unfoldable pub switched_merchant_id : Context → Text
switched_merchant_id c = trim_space (get c.headers x_merchant_id)

unfoldable pub skip_tenant_fallback : Net → Config → Context → Bool
skip_tenant_fallback net cfg c =
    if not (is_super_admin_host cfg (request_admin_host net cfg c))
    then false
    else not (is_empty (switched_merchant_id c))
