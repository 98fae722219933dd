-- ===== src/Queue/Drain.antt =====
-- The loop gets to everything that was taken up.
use middle.Prelude.{
  Bool, true, false, List, [], ◌∷◌, ◌++◌, length, ◌≡◌, refl, ap, ◌∙◌, arith, Bool-cases, inl, inr,
}
use middle.Queue.{Channel, Event, receive, receive_from, handed}
use middle.Queue.Order.{Run, Run-IsOrdered, accepted_of, handed_of, handed_of-append}

module _ {ℓ} {A : Type ℓ} where
  -- A round of the loop for each answer of `Publish`, with nothing sent between them.
  unfoldable pub rounds : List Bool → Channel A → List (Event A) × Channel A
  rounds [] ch = ([], ch)
  rounds (ok ∷ oks) ch =
      let rest = rounds oks ((receive ok ch).1) in ((receive ok ch).0 ++ rest.0, rest.1)

  receive_head :
      (ok : Bool) (ch : Channel A) (x : A) (b : List A)
      → ch.buffer ≡ x ∷ b
      → ch.publisher ≡ true
      → receive ok ch ≡ (handed x ok ∷ [], record ch { buffer = b })
  unfolding receive receive_from
  receive_head ok ch x b e on = rw (e, on) refl

  rounds-length :
      (oks : List Bool) (ch : Channel A) (b : List A)
      → ch.buffer ≡ b
      → length oks ≡ length b
      → (ch.publisher ≡ false → ch.buffer ≡ [])
      → (handed_of ((rounds oks ch).0) ≡ b) × ((rounds oks ch).1.buffer ≡ [])
  unfolding rounds handed_of
  rounds-length [] ch [] e n idle = (refl, e)
  rounds-length [] ch (x ∷ b) e n idle = absurd (omega (arith, n))
  rounds-length (ok ∷ oks) ch [] e n idle = absurd (omega (arith, n))
  rounds-length (ok ∷ oks) ch (x ∷ b) e n idle = elim (Bool-cases ch.publisher) [
    | inr off ↦ absurd (ground (arith, idle off))
    | inl on ↦
        let later =
          rounds-length oks (record ch { buffer = b }) b refl (omega (arith, n))
            (λ off. absurd (cc)) in
        rw (receive_head ok ch x b e on) (ap (λ l. x ∷ l) (later.0), later.1)
  ]

  -- After as many rounds as items wait, whatever happened before and whatever `Publish` answers, no
  -- item waits and `Publish` was called with every item that was ever taken up, in the order in
  -- which they came.
  pub rounds-Run :
      {ch : Channel A} {es : List (Event A)} (oks : List Bool)
      → Run ch es
      → length oks ≡ length ch.buffer
      → (handed_of (es ++ (rounds oks ch).0) ≡ accepted_of es) × ((rounds oks ch).1.buffer ≡ [])
  rounds-Run {ch} {es} oks r n =
      let o = Run-IsOrdered r in
      let (all, empty) = rounds-length oks ch ch.buffer refl n o.idle in
      (handed_of-append es _ ∙ ap (λ l. handed_of es ++ l) all ∙ o.kept, empty)
