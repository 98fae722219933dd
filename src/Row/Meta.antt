-- ===== src/Row/Meta.antt =====
-- The meta data of a row: what open4go's Init gives it, and what the program adds.
use middle.Prelude.{
  ℕ, List, [], Option, ltb, ◌≡◌, ◌≢◌, ◌⊎◌, inl, inr, arith, refl, Bool-cases, eqb, ◌∷◌, ◌∙◌, sym,
}
use mathlib.Core.Path.{subst}
use middle.Text.{Text}
use middle.Text.Equality.{is_empty_of_ne}
use middle.Oplog.{first_non_empty}
use middle.User.{load_from_header}
use middle.Uri.{Url}
use middle.Row.{
  Logged, MetaModel, Now, Known, or_text, filled, stamped, with_log_identity, complete_meta,
}
use middle.Row.Operation.{Env, Model, operation_model}

-- A value that Init gave is kept, and one that it left empty is filled in.
pub data IsFilled (init known : Text) : Text → Type 0 where
  keeps : init ≢ [] → IsFilled init known init
  fills : init ≡ [] → IsFilled init known known

or_text-IsFilled : (init known : Text) → IsFilled init known (or_text init known)
or_text-IsFilled [] known = fills refl
or_text-IsFilled (c ∷ s) known = keeps (λ e. cc)

-- The times of a row that Init has stamped stay as they are; any other gets the same time twice.
pub record HasTimes (now : Now) (init meta : MetaModel) : Type 0 where
  pub stamped_before :
      init.created_at ≢ []
      → (meta.created_at ≡ init.created_at)
        × (meta.updated_at ≡ init.updated_at)
        × (meta.created_time ≡ init.created_time)
        × (meta.updated_time ≡ init.updated_time)
  pub stamped_now :
      init.created_at ≡ []
      → (meta.created_at ≡ now.printed)
        × (meta.updated_at ≡ now.printed)
        × (meta.created_time ≡ now.seconds)
        × (meta.updated_time ≡ now.seconds)

pub record IsCompleted (now : Now) (init : MetaModel) (k : Known) (meta : MetaModel) : Type 0 where
  pub of_merchant : IsFilled init.merchant_id k.merchant_id meta.merchant_id
  pub of_account : IsFilled init.account_id k.account_id meta.account_id
  pub of_namespace : IsFilled init.namespace k.namespace meta.namespace
  pub of_founder : IsFilled init.founder k.operator meta.founder
  pub of_updater : IsFilled init.updater k.operator meta.updater
  pub level :
      ((k.access_level ≡ 0) × (meta.access_level ≡ init.access_level))
      ⊎ ((k.access_level ≢ 0) × (meta.access_level ≡ k.access_level))
  pub status : meta.status ≡ k.success
  pub times : HasTimes now init meta

-- Stamping touches only the times.
stamped_fields :
    (now : Now) (m : MetaModel)
    → ((stamped now m).merchant_id ≡ m.merchant_id)
      × ((stamped now m).account_id ≡ m.account_id)
      × ((stamped now m).namespace ≡ m.namespace)
      × ((stamped now m).founder ≡ m.founder)
      × ((stamped now m).updater ≡ m.updater)
      × ((stamped now m).access_level ≡ m.access_level)
      × ((stamped now m).status ≡ m.status)
stamped_fields now m = ground arith

stamped-HasTimes : (now : Now) (m : MetaModel) → HasTimes now m (stamped now m)
stamped-HasTimes now m = record {
  stamped_before = λ ne. rw (is_empty_of_ne m.created_at ne) (refl, refl, refl, refl);
  stamped_now = λ e. ground arith;
}

complete_meta-IsCompleted :
    (now : Now) (init : MetaModel) (k : Known) → IsCompleted now init k (complete_meta now init k)
unfolding complete_meta
complete_meta-IsCompleted now init k =
    let (m, a, n, f, u, level, status) = stamped_fields now (filled init k) in
    let times = stamped-HasTimes now (filled init k) in
    record {
      of_merchant =
          subst (λ t. IsFilled init.merchant_id k.merchant_id t) (sym m) (or_text-IsFilled _ _);
      of_account =
          subst (λ t. IsFilled init.account_id k.account_id t) (sym a) (or_text-IsFilled _ _);
      of_namespace =
          subst (λ t. IsFilled init.namespace k.namespace t) (sym n) (or_text-IsFilled _ _);
      of_founder = subst (λ t. IsFilled init.founder k.operator t) (sym f) (or_text-IsFilled _ _);
      of_updater = subst (λ t. IsFilled init.updater k.operator t) (sym u) (or_text-IsFilled _ _);
      level = elim (Bool-cases (eqb k.access_level 0)) [
        | inl none ↦ inl (ground arith, level ∙ ground arith)
        | inr some ↦ inr (ground arith, level ∙ ground arith)
      ];
      status = status;
      times = record { stamped_before = times.stamped_before; stamped_now = times.stamped_now };
    }

-- What a row says of itself.
abbrev pub known : Model → Known
known m = record {
  access_level = m.fields.access_level;
  success = ltb m.fields.resp_code 400;
  merchant_id = m.fields.merchant_id;
  account_id = m.fields.account_id;
  namespace = m.fields.namespace;
  operator = first_non_empty (m.fields.user_id ∷ m.fields.account_id ∷ []);
}

-- Whatever open4go's Init makes of the request's context, which is first given the row's merchant and
-- the identity of the login, the meta data of a row keeps the merchant, account, namespace, founder,
-- updater and times that Init gave, gets those of the row where Init left them empty, takes the
-- row's access level unless that is 0, and says whether the status is below 400.
pub operation_model-IsCompleted :
    (env : Env) (now : Now) (c : Logged) (url : Option (Url (env.urls.Rest))) (payload : List ℕ)
    → IsCompleted now
        (env.init (
          with_log_identity c.http.values
            (load_from_header c.http)
            (operation_model env now c url payload).fields.merchant_id))
        (known (operation_model env now c url payload))
        (operation_model env now c url payload).meta
unfolding operation_model
operation_model-IsCompleted env now c url payload = complete_meta-IsCompleted now _ _
