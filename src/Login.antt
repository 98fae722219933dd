-- ===== src/Login.antt =====
-- user.go: `writeIntoHeader`, which puts a login into the request's headers and context. Its
-- assignments to `tenantId`, `switcher` and the headers are one record, and each `if` is a function
-- on it, in the order of the source. Log lines are left out.
pub mod Steps
pub mod Isolation
pub mod Switch
mod Tests
use middle.Prelude.{Bool, true, false, ◌&&◌, ◌||◌, not, [], ◌∷◌, Option, none, some, if◌then◌else◌}
use middle.Text.{Text, runes, is_empty, ◌==◌, trim_space, text_runs}
use middle.Http.{
  Header, Headers, Context, Values, get, set, del, namespace, account_id, user_id, phone,
  merchant_id, user_name, avatar, login_type, login_level, x_tenant_id, x_merchant_id,
}
use middle.Config.{Config, Net, split_host_port}
use middle.User.{LoginInfo, load_from_header}
use middle.Tenant.{
  hostname_only, trusts, is_trusted_proxy, is_super_admin_host, request_admin_host,
  can_switch_merchant, switched_merchant_id,
}
use middle.Gateway.{gateway_token, valid_gateway_token, from_gateway, trust_tenant_header}

abbrev pub star : Text
star = runes "*"

-- `c.GetBool(SuperAdminContextKey)`
unfoldable pub is_super_admin : Context → Bool
is_super_admin c = elim c.keys.super_admin [ none ↦ false | some b ↦ b ]

-- The variables of `writeIntoHeader` that its branches assign.
pub record Resolution : Type 0 where
  pub tenant : Text
  pub switcher : Text
  pub headers : Headers

-- `verified && !allowSwitch`: the merchant of the token overrides the header.
pub login_merchant : LoginInfo → Bool → Resolution → Resolution
login_merchant l bound r =
    let jwt_merchant = trim_space l.merchant_id in
    if bound && not (is_empty jwt_merchant) && not (r.tenant == jwt_merchant)
    then record r { tenant = jwt_merchant; headers = set r.headers x_tenant_id jwt_merchant }
    else r

-- The header of a login with no merchant is dropped unless it is trusted.
pub drop_untrusted : LoginInfo → Bool → Bool → Resolution → Resolution
drop_untrusted l bound trusted r =
    if bound && is_empty (trim_space l.merchant_id) && not (is_empty r.tenant) && not trusted
    then record r { tenant = []; headers = del r.headers x_tenant_id }
    else r

-- A switch that is not permitted is dropped.
pub drop_switch : Bool → Bool → Resolution → Resolution
drop_switch verified allow r =
    if not (is_empty r.switcher) && not allow
    then record r {
      switcher = [];
      headers = if verified then del r.headers x_merchant_id else r.headers;
    }
    else r

-- A permitted switch replaces the tenant; else an empty tenant becomes the merchant of the login.
pub choose_tenant : LoginInfo → Bool → Resolution → Resolution
choose_tenant l allow r =
    if allow && not (is_empty r.switcher)
    then if r.switcher == star
      then record r { tenant = []; headers = del r.headers x_tenant_id }
      else record r { tenant = r.switcher; headers = set r.headers x_tenant_id r.switcher }
    else if is_empty r.tenant
    then record r {
      tenant = l.merchant_id;
      headers =
          if is_empty l.merchant_id then r.headers else set r.headers x_tenant_id l.merchant_id;
    }
    else r

pub bind_merchant_id : Resolution → Resolution
bind_merchant_id r =
    if not (is_empty r.tenant) && not (r.tenant == star)
    then record r { headers = set r.headers merchant_id r.tenant }
    else r

pub identity_headers : LoginInfo → Headers → Headers
identity_headers l hs =
    let hs1 = set (set (set hs account_id l.account_id) user_id l.user_id) user_name l.user_name in
    let hs2 = set (set hs1 phone l.phone) avatar l.avatar in
    set (set hs2 login_type l.login_type) login_level l.login_level

abbrev pub merchant_key : Text → Text
merchant_key tenant = if tenant == star then [] else tenant

pub identity_values : LoginInfo → Bool → Text → Values → Values
identity_values l allow tenant v = record v {
  account = some l.account_id;
  namespace = some (if allow && is_empty (merchant_key tenant) then star else l.namespace);
  merchant = some (merchant_key tenant);
  operator = some l.user_id;
}

unfoldable pub allow_switch : Net → Config → LoginInfo → Context → Bool → Bool
allow_switch net cfg l c verified =
    verified && is_super_admin_host cfg (request_admin_host net cfg c) && can_switch_merchant cfg l

-- The variables before the first branch.
pub initial : LoginInfo → Context → Resolution
initial l c =
    let hs = set c.headers namespace l.namespace in
    record {
      tenant = trim_space (get hs x_tenant_id);
      switcher = switched_merchant_id c;
      headers = hs;
    }

-- All branches up to the headers of the identity.
unfoldable pub resolve : LoginInfo → Bool → Bool → Bool → Resolution → Resolution
unfolding login_merchant drop_untrusted drop_switch choose_tenant bind_merchant_id
resolve l verified allow trusted r =
    let bound = verified && not allow in
    bind_merchant_id (
      choose_tenant l allow
        (drop_switch verified allow (drop_untrusted l bound trusted (login_merchant l bound r))))

unfoldable pub write_into_header : Net → Config → LoginInfo → Bool → Context → Context
write_into_header net cfg l verified c =
    let allow = allow_switch net cfg l c verified in
    let r = resolve l verified allow (trust_tenant_header cfg c) (initial l c) in
    record c {
      headers = identity_headers l r.headers;
      values = identity_values l allow r.tenant c.values;
      keys = record (c.keys) { super_admin = some allow };
    }

-- Named on the `unfolding` line of a test, it opens every function that a login goes through.
unfoldable pub login_runs : Unit {0}
unfolding text_runs split_host_port hostname_only trusts is_trusted_proxy request_admin_host
    is_super_admin_host can_switch_merchant switched_merchant_id gateway_token valid_gateway_token
    from_gateway trust_tenant_header is_super_admin allow_switch initial resolve identity_headers
    identity_values write_into_header
login_runs = tt
