-- ===== src/Queue/Order.antt =====
-- Whatever producers and the loop do, the channel stays within its capacity and keeps the order.
use middle.Prelude.{
  ◌≤◌, Bool, true, false, List, [], ◌∷◌, ◌++◌, none, some, length, length-append, ◌≡◌, refl, sym,
  ap, ◌∙◌, arith, Bool-cases, ◌&&◌, not, inl, inr, ◌<◌,
}
use mathlib.Core.Path.{subst}
use mathlib.Core.List.{append_assoc, append-nil}
use middle.Queue.{
  capacity, Channel, Event, accepted, refused, handed, unmade, start, send, receive_from, receive,
}

module _ {ℓ} {A : Type ℓ} where
  pub send-eq-some :
      (x : A) (ch ch' : Channel A)
      → send x ch ≡ some ch'
      → (ch' ≡ record ch { buffer = ch.buffer ++ (x ∷ []) })
        × (ch.made ≡ true)
        × (length ch.buffer < capacity)
  unfolding send
  send-eq-some x ch ch' h = ground arith

  -- A run of the program: starts, calls that take an item up or drop it, and rounds of the loop. The
  -- events are those that the operations report, oldest first.
  pub data Run : Channel A → List (Event A) → Type ℓ where
    begin : Run unmade []
    started :
        {ch : Channel A} {es : List (Event A)} (publisher : Bool)
        → Run ch es
        → Run (start publisher ch) es
    taken_up :
        {ch ch' : Channel A} {es : List (Event A)} (x : A)
        → Run ch es
        → send x ch ≡ some ch'
        → Run ch' (es ++ (accepted x ∷ []))
    dropped :
        {ch : Channel A} {es : List (Event A)} (x : A)
        → Run ch es
        → send x ch ≡ none
        → Run ch (es ++ (refused x ∷ []))
    round :
        {ch : Channel A} {es : List (Event A)} (ok : Bool)
        → Run ch es
        → Run ((receive ok ch).1) (es ++ (receive ok ch).0)

  -- The items that were taken up, and those that `Publish` was called with.
  unfoldable pub accepted_of : List (Event A) → List A
  accepted_of [] = []
  accepted_of (accepted x ∷ es) = x ∷ accepted_of es
  accepted_of (refused x ∷ es) = accepted_of es
  accepted_of (handed x ok ∷ es) = accepted_of es

  unfoldable pub handed_of : List (Event A) → List A
  handed_of [] = []
  handed_of (accepted x ∷ es) = handed_of es
  handed_of (refused x ∷ es) = handed_of es
  handed_of (handed x ok ∷ es) = x ∷ handed_of es

  accepted_of-append :
      (es fs : List (Event A)) → accepted_of (es ++ fs) ≡ accepted_of es ++ accepted_of fs
  unfolding accepted_of
  accepted_of-append [] fs = refl
  accepted_of-append (accepted x ∷ es) fs = ap (λ l. x ∷ l) (accepted_of-append es fs)
  accepted_of-append (refused x ∷ es) fs = accepted_of-append es fs
  accepted_of-append (handed x ok ∷ es) fs = accepted_of-append es fs

  pub handed_of-append :
      (es fs : List (Event A)) → handed_of (es ++ fs) ≡ handed_of es ++ handed_of fs
  unfolding handed_of
  handed_of-append [] fs = refl
  handed_of-append (accepted x ∷ es) fs = handed_of-append es fs
  handed_of-append (refused x ∷ es) fs = handed_of-append es fs
  handed_of-append (handed x ok ∷ es) fs = ap (λ l. x ∷ l) (handed_of-append es fs)

  -- The buffer is within the capacity; the items that `Publish` was called with, then those that
  -- wait, are those that were taken up; and no item waits without a publisher.
  pub record IsOrdered (ch : Channel A) (es : List (Event A)) : Type ℓ where
    pub bounded : length ch.buffer ≤ capacity
    pub kept : handed_of es ++ ch.buffer ≡ accepted_of es
    pub made_with_publisher : ch.made ≡ ch.publisher
    pub idle : ch.publisher ≡ false → ch.buffer ≡ []

  -- Events that move no item leave the queue ordered.
  silent-IsOrdered :
      (ch : Channel A) (es fs : List (Event A))
      → accepted_of fs ≡ []
      → handed_of fs ≡ []
      → IsOrdered ch es
      → IsOrdered ch (es ++ fs)
  silent-IsOrdered ch es fs a h o = record {
    bounded = o.bounded;
    kept =
        ap (λ l. l ++ ch.buffer)
          (handed_of-append es fs ∙ ap (λ l. handed_of es ++ l) h ∙ append-nil (handed_of es))
        ∙ o.kept
        ∙ sym (
            accepted_of-append es fs
            ∙ ap (λ l. accepted_of es ++ l) a
            ∙ append-nil (accepted_of es));
    made_with_publisher = o.made_with_publisher;
    idle = o.idle;
  }

  start-IsOrdered :
      (publisher : Bool) (ch : Channel A) (es : List (Event A))
      → IsOrdered ch es
      → IsOrdered (start publisher ch) es
  unfolding start
  start-IsOrdered publisher ch es h = elim (Bool-cases (publisher && not ch.made)) [
    | inl on ↦
        rw on (record {
          bounded = h.bounded;
          kept = h.kept;
          made_with_publisher = refl;
          idle = λ e. cc;
        })
    | inr off ↦ rw off h
  ]

  send-IsOrdered :
      (x : A) (ch ch' : Channel A) (es : List (Event A))
      → IsOrdered ch es
      → send x ch ≡ some ch'
      → IsOrdered ch' (es ++ (accepted x ∷ []))
  unfolding accepted_of handed_of
  send-IsOrdered x ch ch' es h e =
      let (same, made, room) = send-eq-some x ch ch' e in
      subst (λ c. IsOrdered c (es ++ (accepted x ∷ []))) (sym same)
        (record {
          bounded = omega (arith, length-append ch.buffer (x ∷ []), room);
          kept =
              ap (λ l. l ++ (ch.buffer ++ (x ∷ [])))
                (handed_of-append es (accepted x ∷ []) ∙ append-nil (handed_of es))
              ∙ sym (append_assoc (handed_of es) ch.buffer (x ∷ []))
              ∙ ap (λ l. l ++ (x ∷ [])) h.kept
              ∙ sym (accepted_of-append es (accepted x ∷ []));
          made_with_publisher = h.made_with_publisher;
          idle = λ off. absurd (ground (arith, h.made_with_publisher));
        })

  receive_from-IsOrdered :
      (ok : Bool) (ch : Channel A) (es : List (Event A)) (b : List A)
      → ch.buffer ≡ b
      → IsOrdered ch es
      → IsOrdered ((receive_from ok ch b).1) (es ++ (receive_from ok ch b).0)
  unfolding receive_from accepted_of handed_of
  receive_from-IsOrdered ok ch es [] e h = silent-IsOrdered ch es [] refl refl h
  receive_from-IsOrdered ok ch es (x ∷ rest) e h = elim (Bool-cases ch.publisher) [
    | inl on ↦ rw on (record {
      bounded = omega (arith, h.bounded, ap length e);
      kept =
          ap (λ l. l ++ rest) (handed_of-append es (handed x ok ∷ []))
          ∙ append_assoc (handed_of es) (x ∷ []) rest
          ∙ ap (λ l. handed_of es ++ l) (sym e)
          ∙ h.kept
          ∙ sym (accepted_of-append es (handed x ok ∷ []) ∙ append-nil (accepted_of es));
      made_with_publisher = h.made_with_publisher ∙ on;
      idle = λ off. absurd (cc);
    })
    | inr off ↦ absurd (ground (arith, h.idle off))
  ]

  -- Along every run the channel is bounded, and `Publish` is called with the items that were taken
  -- up, in their order: none is left out or repeated, and those that `Publish` was not called with
  -- yet still wait. Whether a call succeeds is not said: an item is gone when its call fails.
  pub Run-IsOrdered : {ch : Channel A} {es : List (Event A)} → Run ch es → IsOrdered ch es
  unfolding receive accepted_of handed_of
  Run-IsOrdered begin = record {
    bounded = omega arith;
    kept = refl;
    made_with_publisher = refl;
    idle = λ e. refl;
  }
  Run-IsOrdered (started {ch} {es} publisher r) = start-IsOrdered publisher ch es (Run-IsOrdered r)
  Run-IsOrdered (taken_up {ch} {ch'} {es} x r e) = send-IsOrdered x ch ch' es (Run-IsOrdered r) e
  Run-IsOrdered (dropped {ch} {es} x r e) =
      silent-IsOrdered ch es (refused x ∷ []) refl refl (Run-IsOrdered r)
  Run-IsOrdered (round {ch} {es} ok r) =
      receive_from-IsOrdered ok ch es ch.buffer refl (Run-IsOrdered r)
