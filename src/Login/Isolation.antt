-- ===== src/Login/Isolation.antt =====
-- Merchant isolation: a login that may not switch stays with the merchant of its token.
use middle.Prelude.{Bool, true, false, some, [], ◌≡◌, ◌≢◌, ap, refl}
use middle.Text.{Text, trim_space}
use middle.Http.{Context, get, merchant_id, x_tenant_id, x_merchant_id}
use middle.Config.{Config, Net}
use middle.User.{LoginInfo}
use middle.Gateway.{trust_tenant_header}
use middle.Login.{
  star, is_super_admin, merchant_key, allow_switch, initial, identity_values, write_into_header,
}
use middle.Login.Steps

-- The request works for merchant `m`: the tenant header and the context say so, it is no
-- super-admin's, and no request to switch is left in it.
pub record IsBoundTo (m : Text) (c : Context) : Type 0 where
  pub tenant_header : trim_space (get c.headers x_tenant_id) ≡ m
  pub context_merchant : c.values.merchant ≡ some (merchant_key m)
  pub not_super : is_super_admin c ≡ false
  pub no_switch : trim_space (get c.headers x_merchant_id) ≡ []

module _ (net : Net) (cfg : Config) (l : LoginInfo) (c : Context)
    (denied : allow_switch net cfg l c true ≡ false) where
  abbrev trusted : Bool
  trusted = trust_tenant_header cfg c

  no_switch_left : trim_space (get (write_into_header net cfg l true c).headers x_merchant_id) ≡ []
  no_switch_left =
      rw
        (
          Steps.write_into_header_headers net cfg l c true false denied,
          (Steps.identity_headers_tenant l _).2,
        )
        (Steps.denied-x_merchant_id l (initial l c) (Steps.initial-tenant l c) trusted
          (Steps.initial-switcher l c))

  -- A verified login that has a merchant and may not switch is bound to that merchant, whatever
  -- the request's headers say.
  pub write_into_header-IsBoundTo :
      trim_space l.merchant_id ≢ []
      → IsBoundTo (trim_space l.merchant_id) (write_into_header net cfg l true c)
  unfolding identity_values
  write_into_header-IsBoundTo has = record {
    tenant_header =
        rw
          (
            Steps.write_into_header_headers net cfg l c true false denied,
            (Steps.identity_headers_tenant l _).0,
          )
          (Steps.bound-x_tenant_id l (initial l c) (Steps.initial-tenant l c) trusted has);
    context_merchant = rw (Steps.write_into_header_values net cfg l c true false denied) (
        ap (λ t. some (merchant_key t))
          (Steps.bound-tenant l (initial l c) (Steps.initial-tenant l c) trusted has));
    not_super = Steps.write_into_header_super net cfg l c true false denied;
    no_switch = no_switch_left;
  }

  -- The MerchantID header names the merchant of the token too, unless that is "*".
  pub write_into_header-merchant_id :
      trim_space l.merchant_id ≢ []
      → trim_space l.merchant_id ≢ star
      → get (write_into_header net cfg l true c).headers merchant_id ≡ trim_space l.merchant_id
  write_into_header-merchant_id has ne =
      rw
        (
          Steps.write_into_header_headers net cfg l c true false denied,
          (Steps.identity_headers_tenant l _).1,
        )
        (Steps.bound-merchant_id l (initial l c) (Steps.initial-tenant l c) trusted has ne)

  -- A login whose merchant is blank, on a request that is not trusted, has no tenant header.
  pub write_into_header_blank :
      trim_space l.merchant_id ≡ []
      → trust_tenant_header cfg c ≡ false
      → trim_space (get (write_into_header net cfg l true c).headers x_tenant_id) ≡ []
  write_into_header_blank blank untrusted =
      rw
        (
          Steps.write_into_header_headers net cfg l c true false denied,
          (Steps.identity_headers_tenant l _).0,
          untrusted,
        )
        (Steps.blank-x_tenant_id l (initial l c) (Steps.initial-tenant l c) blank)

  pub write_into_header_stale_merchant_id :
      l.merchant_id ≡ []
      → trust_tenant_header cfg c ≡ false
      → get (write_into_header net cfg l true c).headers merchant_id ≡ get c.headers merchant_id
  write_into_header_stale_merchant_id none untrusted = rw (
    Steps.write_into_header_headers net cfg l c true false denied,
    (Steps.identity_headers_tenant l _).1,
    untrusted,
    Steps.unbound-merchant_id l (initial l c) (Steps.initial-tenant l c) none,
    Steps.initial-merchant_id l c,
  )

  unbound :
      l.merchant_id ≡ []
      → trust_tenant_header cfg c ≡ false
      → IsBoundTo [] (write_into_header net cfg l true c)
  unfolding identity_values
  unbound none untrusted = record {
    tenant_header =
        rw
          (
            Steps.write_into_header_headers net cfg l c true false denied,
            (Steps.identity_headers_tenant l _).0,
            untrusted,
          )
          (Steps.unbound-x_tenant_id l (initial l c) (Steps.initial-tenant l c) none);
    context_merchant =
        rw (Steps.write_into_header_values net cfg l c true false denied, untrusted)
          (ap (λ t. some (merchant_key t))
            (Steps.unbound-tenant l (initial l c) (Steps.initial-tenant l c) none));
    not_super = Steps.write_into_header_super net cfg l c true false denied;
    no_switch = no_switch_left;
  }

  -- A verified login that has no merchant and may not switch, on a request that is not trusted, is
  -- bound to no merchant by the tenant header and the context, whatever the request's headers say; no
  -- super mark and no switch are left; and the MerchantID header alone stays as the client sent it.
  pub write_into_header_no_merchant :
      l.merchant_id ≡ []
      → trust_tenant_header cfg c ≡ false
      → IsBoundTo [] (write_into_header net cfg l true c)
        × (get (write_into_header net cfg l true c).headers merchant_id ≡ get c.headers merchant_id)
  write_into_header_no_merchant none untrusted =
      (unbound none untrusted, write_into_header_stale_merchant_id none untrusted)

  -- On a request whose tenant header is trusted, a verified login that has no merchant and may not
  -- switch is bound to the merchant of X-Tenant-ID: the header stays, and the context names it; no
  -- super mark and no switch are left; and the MerchantID header names it too, unless it is empty
  -- or "*".
  pub write_into_header_gateway :
      l.merchant_id ≡ []
      → trust_tenant_header cfg c ≡ true
      → IsBoundTo (trim_space (get c.headers x_tenant_id)) (write_into_header net cfg l true c)
        × (trim_space (get c.headers x_tenant_id) ≢ []
            → trim_space (get c.headers x_tenant_id) ≢ star
            → get (write_into_header net cfg l true c).headers merchant_id
              ≡ trim_space (get c.headers x_tenant_id))
  unfolding identity_values initial
  write_into_header_gateway none trust = (
    record {
      tenant_header =
          rw
            (
              Steps.write_into_header_headers net cfg l c true false denied,
              (Steps.identity_headers_tenant l _).0,
              trust,
              Steps.gateway-x_tenant_id l (initial l c) (Steps.initial-tenant l c) none,
            )
            refl;
      context_merchant =
          rw
            (
              Steps.write_into_header_values net cfg l c true false denied,
              trust,
              Steps.gateway-tenant l (initial l c) (Steps.initial-tenant l c) none,
            )
            refl;
      not_super = Steps.write_into_header_super net cfg l c true false denied;
      no_switch = no_switch_left;
    },
    λ ne ns.
        rw
          (
            Steps.write_into_header_headers net cfg l c true false denied,
            (Steps.identity_headers_tenant l _).1,
            trust,
          )
          (Steps.gateway-merchant_id l (initial l c) (Steps.initial-tenant l c) none ne ns),
  )
