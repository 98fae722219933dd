-- ===== src/WxAuth/Fields.antt =====
-- What the requests that pass carry.
use middle.Prelude.{
  List, [], ◌∷◌, ◌++◌, Option, none, some, ◌≡◌, inl, inr, refl, ◌∙◌, ap, arith, Bool-cases,
  Option-cases, if◌then◌else◌, eqb,
}
use mathlib.Core.Path.{subst}
use middle.Text.{Text, runes, is_empty}
use middle.Http.{
  Header, Headers, Context, next, get, set, rank, token, open_id, wx_account_id, union_id,
  session_key,
}
use middle.Http.Laws.{get-set}
use middle.WxAuth.{
  LoginField, login_field, Cache, put_value, read_cache_by_token, verify_fields,
  verify_token_middleware,
}

abbrev pub stored : Headers → Header → Text → Headers
stored hs h value = if is_empty value then hs else set hs h value

get-stored :
    (hs : Headers) (h : Header) (value : Text) (k : Header)
    → get (stored hs h value) k
      ≡ (if eqb (rank k) (rank h) then (if is_empty value then get hs k else value) else get hs k)
get-stored hs h value k = elim (Bool-cases (is_empty value)) [
  | inl e ↦ rw e (ground arith)
  | inr e ↦ rw e (get-set hs h k value)
]

put_value-some :
    (cached : Option Text) (h : Header) (hs hs' : Headers)
    → put_value cached h hs ≡ some hs'
    → (value : Text) × (cached ≡ some value) × (hs' ≡ stored hs h value)
put_value-some none h hs hs' e = absurd (ground arith)
put_value-some (some value) h hs hs' e = (value, refl, ground arith)

verify_fields_next :
    (hget : Cache) (key : Text) (f : LoginField) (fs : List LoginField) (c c' : Context)
    → verify_fields hget key (f ∷ fs) c ≡ next c'
    → (value : Text) × (hget key f.name ≡ some value)
      × (verify_fields hget key fs (record c { headers = stored c.headers f.header value })
          ≡ next c')
unfolding verify_fields read_cache_by_token
verify_fields_next hget key f fs c c' h =
    elim (Option-cases (put_value (hget key f.name) f.header c.headers)) [
      | inl failed ↦ absurd (ground arith)
      | inr (hs, put) ↦
          let (value, cached, same) = put_value-some (hget key f.name) f.header c.headers hs put in
          (
            value,
            cached,
            subst (λ x. verify_fields hget key fs (record c { headers = x }) ≡ next c') same
                (ground arith),
          )
    ]

verify_fields-nil :
    (hget : Cache) (key : Text) (c c' : Context) → verify_fields hget key [] c ≡ next c' → c' ≡ c
unfolding verify_fields
verify_fields-nil hget key c c' h = ground arith

-- The header that a request which passed has: the value of the cache, or, where that is empty, what
-- the client sent.
abbrev pub taken : Text → Text → Text
taken value given = if is_empty value then given else value

abbrev four : Headers → Text → Text → Text → Text → Header → Text
four hs o a u s k =
    if eqb (rank k) (rank session_key)
    then taken s (get hs k)
    else if eqb (rank k) (rank union_id)
    then taken u (get hs k)
    else if eqb (rank k) (rank wx_account_id)
    then taken a (get hs k)
    else if eqb (rank k) (rank open_id)
    then taken o (get hs k)
    else get hs k

stored-four :
    (hs : Headers) (o a u s : Text) (k : Header)
    → get
        (stored (stored (stored (stored hs open_id o) wx_account_id a) union_id u) session_key s)
        k
      ≡ four hs o a u s k
stored-four hs o a u s k =
    let h1 = stored hs open_id o in
    let h2 = stored h1 wx_account_id a in
    let h3 = stored h2 union_id u in
    ground (
      arith,
      get-stored h3 session_key s k,
      get-stored h2 union_id u k,
      get-stored h1 wx_account_id a k,
      get-stored hs open_id o k,
    )

-- A request passes only if the cache has all four fields of the token, and then each of their
-- headers is the cached value; but where that value is empty the header is still the client's.
pub verify_token_middleware_sound :
    (hget : Cache) (c c' : Context)
    → verify_token_middleware hget c ≡ next c'
    → let key = runes "wx_tokens_" ++ get c.headers token in
      (o : Text) × (a : Text) × (u : Text) × (s : Text) × (hget key (runes "OPEN_ID") ≡ some o)
      × (hget key (runes "ACCOUNT_ID") ≡ some a)
      × (hget key (runes "UNION_ID") ≡ some u)
      × (hget key (runes "SESSION_KEY") ≡ some s)
      × (get c'.headers open_id ≡ taken o (get c.headers open_id))
      × (get c'.headers wx_account_id ≡ taken a (get c.headers wx_account_id))
      × (get c'.headers union_id ≡ taken u (get c.headers union_id))
      × (get c'.headers session_key ≡ taken s (get c.headers session_key))
unfolding verify_token_middleware
verify_token_middleware_sound hget c c' h =
    let key = runes "wx_tokens_" ++ get c.headers token in
    let f2 = login_field (runes "ACCOUNT_ID") wx_account_id in
    let f3 = login_field (runes "UNION_ID") union_id in
    let f4 = login_field (runes "SESSION_KEY") session_key in
    let (o, co, h1) =
      verify_fields_next hget key (login_field (runes "OPEN_ID") open_id) (f2 ∷ f3 ∷ f4 ∷ []) c c'
        h in
    let c1 = record c { headers = stored c.headers open_id o } in
    let (a, ca, h2) = verify_fields_next hget key f2 (f3 ∷ f4 ∷ []) c1 c' h1 in
    let c2 = record c1 { headers = stored c1.headers wx_account_id a } in
    let (u, cu, h3) = verify_fields_next hget key f3 (f4 ∷ []) c2 c' h2 in
    let c3 = record c2 { headers = stored c2.headers union_id u } in
    let (s, cs, h4) = verify_fields_next hget key f4 [] c3 c' h3 in
    let c4 = record c3 { headers = stored c3.headers session_key s } in
    let same : c' ≡ c4 = verify_fields-nil hget key c4 c' h4 in
    let at : (k : Header) → get c'.headers k ≡ get c4.headers k =
      λ k. ap (λ x. get x.headers k) same in
    let chain : (k : Header) → get c4.headers k ≡ four c.headers o a u s k =
      λ k. stored-four c.headers o a u s k in
    (
      o,
      a,
      u,
      s,
      co,
      ca,
      cu,
      cs,
      at open_id ∙ chain open_id,
      at wx_account_id ∙ chain wx_account_id,
      at union_id ∙ chain union_id,
      at session_key ∙ chain session_key,
    )
