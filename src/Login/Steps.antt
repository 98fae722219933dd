-- ===== src/Login/Steps.antt =====
-- The branches of `writeIntoHeader`, by kind of login.
use middle.Prelude.{Bool, true, false, [], ◌≡◌, ◌≢◌, refl, arith}
use middle.Text.{trim_space}
use middle.Text.Equality.{eq_iff}
use middle.Text.Trim.{trim_space_idem, trim_space-nil}
use middle.Http.{Headers, Context, get, merchant_id, x_tenant_id, x_merchant_id}
use middle.User.{LoginInfo}
use middle.Config.{Config, Net}
use middle.Tenant.{switched_merchant_id}
use middle.Gateway.{trust_tenant_header}
use middle.Login.{
  star, Resolution, resolve, identity_headers, initial, allow_switch, write_into_header,
  identity_values, is_super_admin,
}

-- The headers of the identity leave the tenant headers alone.
pub identity_headers_tenant :
    (l : LoginInfo) (hs : Headers)
    → (identity_headers l hs x_tenant_id ≡ hs x_tenant_id)
      × (identity_headers l hs merchant_id ≡ hs merchant_id)
      × (identity_headers l hs x_merchant_id ≡ hs x_merchant_id)
unfolding identity_headers
identity_headers_tenant l hs = (refl, refl, refl)

module _ (l : LoginInfo) (r : Resolution)
    (same : r.tenant ≡ trim_space (get r.headers x_tenant_id)) where
  -- A verified login that may not switch and has a merchant is bound to it.
  module _ (trusted : Bool) (has : trim_space l.merchant_id ≢ []) where
    pub bound-tenant : (resolve l true false trusted r).tenant ≡ trim_space l.merchant_id
    unfolding resolve
    bound-tenant = ground (arith, eq_iff r.tenant (trim_space l.merchant_id))

    pub bound-x_tenant_id :
        trim_space (get (resolve l true false trusted r).headers x_tenant_id)
        ≡ trim_space l.merchant_id
    unfolding resolve
    bound-x_tenant_id =
        ground (arith, eq_iff r.tenant (trim_space l.merchant_id), trim_space_idem l.merchant_id)

    pub bound-merchant_id :
        trim_space l.merchant_id ≢ star
        → get (resolve l true false trusted r).headers merchant_id ≡ trim_space l.merchant_id
    unfolding resolve
    bound-merchant_id ne = ground (
      arith,
      eq_iff r.tenant (trim_space l.merchant_id),
      eq_iff (trim_space l.merchant_id) star,
      eq_iff r.tenant star,
    )

  -- A verified login with no merchant, of a request that is not trusted, gets no tenant.
  module _ (none : l.merchant_id ≡ []) where
    pub unbound-tenant : (resolve l true false false r).tenant ≡ []
    unfolding resolve
    unbound-tenant = ground (arith, trim_space-nil)

    pub unbound-x_tenant_id :
        trim_space (get (resolve l true false false r).headers x_tenant_id) ≡ []
    unfolding resolve
    unbound-x_tenant_id = ground (arith, trim_space-nil)

    pub unbound-merchant_id :
        (resolve l true false false r).headers merchant_id ≡ r.headers merchant_id
    unfolding resolve
    unbound-merchant_id = ground (arith, trim_space-nil)

    -- From the gateway it keeps the tenant that the gateway names.
    pub gateway-tenant : (resolve l true false true r).tenant ≡ r.tenant
    unfolding resolve
    gateway-tenant = ground (arith, trim_space-nil)

    pub gateway-x_tenant_id :
        get (resolve l true false true r).headers x_tenant_id ≡ get r.headers x_tenant_id
    unfolding resolve
    gateway-x_tenant_id = ground (arith, trim_space-nil)

    pub gateway-merchant_id :
        r.tenant ≢ []
        → r.tenant ≢ star
        → get (resolve l true false true r).headers merchant_id ≡ r.tenant
    unfolding resolve
    gateway-merchant_id ne ns = ground (arith, trim_space-nil, eq_iff r.tenant star)

  -- The same holds of the header if the merchant is only blank.
  pub blank-x_tenant_id :
      trim_space l.merchant_id ≡ []
      → trim_space (get (resolve l true false false r).headers x_tenant_id) ≡ []
  unfolding resolve
  blank-x_tenant_id blank = ground (arith, trim_space-nil)

  -- A login that may switch, and asks for a merchant.
  module _ (trusted : Bool) (asks : r.switcher ≢ []) where
    pub switch-tenant : r.switcher ≢ star → (resolve l true true trusted r).tenant ≡ r.switcher
    unfolding resolve
    switch-tenant ne = ground (arith, eq_iff r.switcher star)

    pub switch-x_tenant_id :
        r.switcher ≢ star → get (resolve l true true trusted r).headers x_tenant_id ≡ r.switcher
    unfolding resolve
    switch-x_tenant_id ne = ground (arith, eq_iff r.switcher star)

    pub view_all-tenant : r.switcher ≡ star → (resolve l true true trusted r).tenant ≡ []
    unfolding resolve
    view_all-tenant e = ground (arith, eq_iff r.switcher star)

    pub view_all-x_tenant_id :
        r.switcher ≡ star → get (resolve l true true trusted r).headers x_tenant_id ≡ []
    unfolding resolve
    view_all-x_tenant_id e = ground (arith, eq_iff r.switcher star)

  -- A switch that is not permitted leaves no X-Merchant-ID behind on a verified login.
  pub denied-x_merchant_id :
      (trusted : Bool)
      → r.switcher ≡ trim_space (get r.headers x_merchant_id)
      → trim_space (get (resolve l true false trusted r).headers x_merchant_id) ≡ []
  unfolding resolve
  denied-x_merchant_id trusted e = ground (arith, trim_space-nil)

-- The variables before the first branch agree with the headers.
module _ (l : LoginInfo) (c : Context) where
  pub initial-tenant : (initial l c).tenant ≡ trim_space (get (initial l c).headers x_tenant_id)
  unfolding initial
  initial-tenant = refl

  pub initial-x_tenant_id : get (initial l c).headers x_tenant_id ≡ get c.headers x_tenant_id
  unfolding initial
  initial-x_tenant_id = refl

  pub initial-switcher :
      (initial l c).switcher ≡ trim_space (get (initial l c).headers x_merchant_id)
  unfolding initial switched_merchant_id
  initial-switcher = refl

  pub initial-merchant_id : (initial l c).headers merchant_id ≡ c.headers merchant_id
  unfolding initial
  initial-merchant_id = refl

-- What `writeIntoHeader` leaves in the tenant headers and the context is what the branches resolve.
module _ (net : Net) (cfg : Config) (l : LoginInfo) (c : Context) (verified allow : Bool)
    (known : allow_switch net cfg l c verified ≡ allow) where
  abbrev resolved : Resolution
  resolved = resolve l verified allow (trust_tenant_header cfg c) (initial l c)

  pub write_into_header_headers :
      (write_into_header net cfg l verified c).headers ≡ identity_headers l resolved.headers
  unfolding write_into_header
  write_into_header_headers = rw known

  pub write_into_header_values :
      (write_into_header net cfg l verified c).values
      ≡ identity_values l allow resolved.tenant c.values
  unfolding write_into_header
  write_into_header_values = rw known

  pub write_into_header_super : is_super_admin (write_into_header net cfg l verified c) ≡ allow
  unfolding write_into_header is_super_admin
  write_into_header_super = known
