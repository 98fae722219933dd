-- ===== src/Callback/Sound.antt =====
-- Which callbacks are let through.
use middle.Prelude.{
  Bool, true, false, ◌&&◌, not, any, List, [], ◌∷◌, none, some, ◌≡◌, ◌≢◌, ◌⊎◌, ◌↔◌, refl, arith,
  Bool-cases, inl, inr,
}
use middle.Text.{Text, is_empty, ◌==◌, trim_space}
use middle.Text.Equality.{eq_iff}
use middle.Callback.{
  Params, sign_key, has_key, canonical_sorted_kv, sign_equal_constant_time, uu_md5_sign, try_keys,
  verify_uu_md5, Form, Incoming, FormLib,
}

module _ (digest : Text → Text) where
  -- The signature is right for one key, as it is trimmed.
  abbrev pub signs : Text → Text → Text → Bool
  signs got payload key =
      not (is_empty (trim_space key))
      && sign_equal_constant_time got (uu_md5_sign digest payload (trim_space key))

  any-fresh :
      (got payload key : Text) (seen : List Text)
      → any (λ k. sign_equal_constant_time got (uu_md5_sign digest payload k)) seen ≡ false
      → sign_equal_constant_time got (uu_md5_sign digest payload key) ≡ true
      → any (λ k. k == key) seen ≡ false
  any-fresh got payload key [] h e = refl
  any-fresh got payload key (k ∷ seen) h e =
      ground (arith, any-fresh got payload key seen, eq_iff k key)

  -- Keys that were tried before are no loss: the loop finds a key exactly if there is one.
  try_keys_lem :
      (got payload : Text) (seen keys : List Text)
      → any (λ k. sign_equal_constant_time got (uu_md5_sign digest payload k)) seen ≡ false
      → try_keys digest got payload seen keys ≡ any (signs got payload) keys
  unfolding try_keys
  try_keys_lem got payload seen [] h = refl
  try_keys_lem got payload seen (key ∷ keys) h = elim (Bool-cases (is_empty (trim_space key))) [
    | inl blank ↦ rw blank (try_keys_lem got payload seen keys h)
    | inr full ↦
        elim (Bool-cases
          (sign_equal_constant_time got (uu_md5_sign digest payload (trim_space key)))) [
            | inl right ↦ rw (full, right, any-fresh got payload (trim_space key) seen h right)
            | inr wrong ↦ ground (
              arith,
              try_keys_lem got payload seen keys h,
              try_keys_lem got payload (trim_space key ∷ seen) keys,
            )
          ]
  ]

  -- The parameters have a signature and signed text, and it is right for a candidate key.
  pub record IsGenuine (params : Params) (keys : List Text) : Type 0 where
    pub has_sign : has_key params sign_key ≡ true
    pub sign : trim_space (params.value sign_key) ≢ []
    pub payload : canonical_sorted_kv params (sign_key ∷ []) ≢ []
    pub signed :
        any (signs (params.value sign_key) (canonical_sorted_kv params (sign_key ∷ []))) keys ≡ true

  -- A signature is accepted exactly if it is there, something is signed, and it is right for one of
  -- the keys that are not blank; that a key is tried only once changes nothing.
  pub verify_uu_md5_iff :
      (params : Params) (keys : List Text)
      → (verify_uu_md5 digest params keys ≡ true) ↔ IsGenuine params keys
  unfolding verify_uu_md5
  verify_uu_md5_iff params keys =
      let loop : try_keys digest (params.value sign_key)
            (canonical_sorted_kv params (sign_key ∷ [])) [] keys
          ≡ any (signs (params.value sign_key) (canonical_sorted_kv params (sign_key ∷ []))) keys =
        try_keys_lem (params.value sign_key) (canonical_sorted_kv params (sign_key ∷ [])) [] keys
          refl in
      (
        λ h. record {
          has_sign = ground arith;
          sign = ground arith;
          payload = ground arith;
          signed = ground arith;
        },
        λ g. ground (arith, loop, g.has_sign, g.sign, g.payload, g.signed),
      )

  -- What the handlers behind the verifier get: the request with its form; the body is read if the
  -- form came from it, and gone.
  pub record IsParsed (lib : FormLib) (r r' : Incoming) (form : Form) : Type 0 where
    pub same_context : r'.context ≡ r.context
    pub kept_form : r'.form ≡ some form
    pub body_left :
        (r.form ≡ none) × (lib.reads_body r.context ≡ true) × (r'.body ≡ []) ⊎ (r'.body ≡ r.body)
