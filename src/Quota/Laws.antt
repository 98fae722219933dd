-- ===== src/Quota/Laws.antt =====
-- Which requests the quota refuses.
use middle.Prelude.{
  ℕ, ◌<◌, Bool, true, false, ◌&&◌, not, [], none, some, eqb, ◌≡◌, ◌≢◌, ◌↔◌, refl, ◌∙◌, arith,
  if◌then◌else◌,
}
use middle.Prelude.Int.{ℤ}
use middle.Text.{Text, runes, is_empty, ◌==◌, trim_space}
use middle.Text.Equality.{eq_iff}
use middle.Http.{
  Context, Headers, Header, rank, jwt, authorization, x_gateway_token, get, x_tenant_id,
  x_merchant_id,
}
use middle.Config.{Config}
use middle.Gateway.{set_gateway_token}
use middle.Usage.{skip_usage_merchant}
use middle.Oplog.{skip_operate_path, action_from_request}
use middle.Quota.{
  Endpoint, usage_check_url, QuotaCheckBody, Reply, no_reply, reply, Service, quota_request,
  copy_jwt, copy_header, verdict, check_quota_remote, route, quota_kind, quota_merchant,
  allow_quota_or_abort,
}

-- The service refuses a call: it answers with a status below 400, JSON, and `allowed` false.
pub data Denies : Reply → Text → Type 0 where
  denies :
      {status : ℕ} {body : QuotaCheckBody} {message : Text}
      → status < 400
      → body.allowed ≡ false
      → message
        ≡ (if is_empty (trim_space body.message) then runes "已超出套餐额度" else trim_space body.message)
      → Denies (reply status (some body)) message

verdict-Denies : (r : Reply) (message : Text) → verdict r ≡ some message → Denies r message
verdict-Denies no_reply message h = absurd (ground arith)
verdict-Denies (reply status none) message h = absurd (ground arith)
verdict-Denies (reply status (some body)) message h =
    denies (ground arith) (ground arith) (ground arith)

Denies-verdict : (r : Reply) (message : Text) → Denies r message → verdict r ≡ some message
Denies-verdict no_reply message d = elim d [ ]
Denies-verdict (reply status none) message d = elim d [ ]
Denies-verdict (reply status (some body)) message (denies low refused same) = ground arith

-- A request that is asked about: a creation of a counted kind, for a tenant, on a watched path.
pub record IsAsked (c : Context) : Type 0 where
  pub posts : c.method ≡ runes "POST"
  pub watched : skip_operate_path (route c) c.url_path ≡ false
  pub counted : quota_kind c ≢ []
  pub creates : action_from_request c.method (route c) c.raw_query ≡ runes "create"
  pub tenant : skip_usage_merchant (quota_merchant c) ≡ false

-- The service refuses the call that is made about the request.
pub record IsOverPlan (net : Service) (e : Endpoint) (cfg : Config) (c : Context) (len : ℤ)
    (message : Text) : Type 0 where
  pub asked : IsAsked c
  pub configured : usage_check_url e ≢ []
  pub called : net.callable (usage_check_url e) ≡ true
  pub refused :
      Denies
        (net.answer (quota_request cfg c (usage_check_url e) (quota_merchant c) (quota_kind c) len))
        message

check_quota_remote-Denies :
    (net : Service) (e : Endpoint) (cfg : Config) (c : Context) (merchant kind : Text) (len : ℤ)
    (message : Text)
    → check_quota_remote net e cfg c merchant kind len ≡ some message
    → (usage_check_url e ≢ [])
      × (net.callable (usage_check_url e) ≡ true)
      × Denies (net.answer (quota_request cfg c (usage_check_url e) merchant kind len)) message
unfolding check_quota_remote
check_quota_remote-Denies net e cfg c merchant kind len message h =
    (ground arith, ground arith, verdict-Denies _ message (ground arith))

Denies-check_quota_remote :
    (net : Service) (e : Endpoint) (cfg : Config) (c : Context) (merchant kind : Text) (len : ℤ)
    (message : Text)
    → usage_check_url e ≢ []
    → net.callable (usage_check_url e) ≡ true
    → Denies (net.answer (quota_request cfg c (usage_check_url e) merchant kind len)) message
    → check_quota_remote net e cfg c merchant kind len ≡ some message
unfolding check_quota_remote
Denies-check_quota_remote net e cfg c merchant kind len message there on d =
    ground (arith, Denies-verdict _ message d)

is_asked : Context → Bool
is_asked c =
    (c.method == runes "POST")
    && not (skip_operate_path (route c) c.url_path)
    && not (is_empty (quota_kind c))
    && (action_from_request c.method (route c) c.raw_query == runes "create")
    && not (skip_usage_merchant (quota_merchant c))

allow_quota_or_abort_lem :
    (net : Service) (e : Endpoint) (cfg : Config) (c : Context) (len : ℤ)
    → allow_quota_or_abort net e cfg c len ≡ (
        if is_asked c
        then check_quota_remote net e cfg c (quota_merchant c) (quota_kind c) len
        else none)
unfolding allow_quota_or_abort is_asked
allow_quota_or_abort_lem net e cfg c len = ground arith

is_asked_iff : (c : Context) → (is_asked c ≡ true) ↔ IsAsked c
unfolding is_asked
is_asked_iff c = (
  λ h. record {
    posts = ground (arith, eq_iff c.method (runes "POST"));
    watched = ground arith;
    counted = ground arith;
    creates =
        ground
          (arith, eq_iff (action_from_request c.method (route c) c.raw_query) (runes "create"));
    tenant = ground arith;
  },
  λ a. ground (
    arith,
    a.posts,
    a.watched,
    a.counted,
    a.creates,
    a.tenant,
    eq_iff c.method (runes "POST"),
    eq_iff (action_from_request c.method (route c) c.raw_query) (runes "create"),
  ),
)

-- A request is refused exactly if it is a POST that creates a counted resource for a tenant, on a
-- watched path, and the service, called with that tenant and kind, answers with a status below 400
-- and `allowed` false. Whatever else the service does, an error or a reply that cannot be read, no
-- request is refused.
pub allow_quota_or_abort_iff :
    (net : Service) (e : Endpoint) (cfg : Config) (c : Context) (len : ℤ) (message : Text)
    → (allow_quota_or_abort net e cfg c len ≡ some message) ↔ IsOverPlan net e cfg c len message
allow_quota_or_abort_iff net e cfg c len message = (
  λ h.
      let asked : is_asked c ≡ true = ground (arith, allow_quota_or_abort_lem net e cfg c len) in
      let (there, on, d) =
        check_quota_remote-Denies net e cfg c (quota_merchant c) (quota_kind c) len message
          (ground (arith, allow_quota_or_abort_lem net e cfg c len)) in
      record { asked = (is_asked_iff c).0 asked; configured = there; called = on; refused = d },
  λ over.
      allow_quota_or_abort_lem net e cfg c len
      ∙ rw ((is_asked_iff c).1 over.asked) (
          Denies-check_quota_remote net e cfg c (quota_merchant c) (quota_kind c) len message
            over.configured over.called over.refused),
)

-- The header is one that the copied headers and the gateway token leave alone.
copied :
    (cfg : Config) (c : Context) (hs : Headers) (h : Header)
    → eqb (rank h) (rank jwt) ≡ false
    → eqb (rank h) (rank authorization) ≡ false
    → eqb (rank h) (rank x_gateway_token) ≡ false
    → get
        (copy_jwt
          (get c.headers jwt)
          (copy_header (get c.headers authorization) (set_gateway_token cfg hs)))
        h
      ≡ get hs h
unfolding set_gateway_token
copied cfg c hs h nj na ng = ground arith

-- The call to the service is about the merchant that was found in the request, in both headers, and
-- keeps the user's own session.
pub quota_request_merchant :
    (cfg : Config) (c : Context) (url merchant kind : Text) (len : ℤ)
    → (get (quota_request cfg c url merchant kind len).headers x_merchant_id ≡ merchant)
      × (get (quota_request cfg c url merchant kind len).headers x_tenant_id ≡ merchant)
      × ((quota_request cfg c url merchant kind len).cookie ≡ c.raw_jwt_cookie)
unfolding quota_request
quota_request_merchant cfg c url merchant kind len =
    (copied cfg c _ x_merchant_id refl refl refl, copied cfg c _ x_tenant_id refl refl refl, refl)
