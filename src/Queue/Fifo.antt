-- ===== src/Queue/Fifo.antt =====
-- What a queue promises, by what can be seen of it: items come out in the order in which they were
-- taken up, and one is dropped only if the queue is not open or full.
use middle.Prelude.{
  ◌≤◌, ◌<◌, Bool, true, false, List, [], ◌∷◌, ◌++◌, Option, none, some, length, ◌≡◌, ◌⊎◌, refl, sym,
  ◌∙◌, arith, Bool-cases, inl, inr, ◌&&◌, not, if◌then◌else◌,
}
use mathlib.Core.Path.{subst}
use mathlib.Core.List.{append-nil}
use middle.Queue.{
  capacity, Channel, Event, accepted, refused, handed, start, send, receive_from, receive,
}
use middle.Queue.Order.{
  send-eq-some, Run, begin, started, taken_up, dropped, round, IsOrdered, Run-IsOrdered,
}

module _ {ℓ} {A : Type ℓ} where
  -- The events of a bounded queue, oldest first, with the items that are in it after them; `none` is
  -- a queue that is not open.
  pub data Serves : List (Event A) → Option (List A) → Type ℓ where
    closed : Serves [] none
    denies : {es : List (Event A)} (x : A) → Serves es none → Serves (es ++ (refused x ∷ [])) none
    opens : {es : List (Event A)} → Serves es none → Serves es (some [])
    accepts :
        {es : List (Event A)} {q : List A} (x : A)
        → Serves es (some q)
        → length q < capacity
        → Serves (es ++ (accepted x ∷ [])) (some (q ++ (x ∷ [])))
    refuses :
        {es : List (Event A)} {q : List A} (x : A)
        → Serves es (some q)
        → length q ≡ capacity
        → Serves (es ++ (refused x ∷ [])) (some q)
    hands :
        {es : List (Event A)} {q : List A} (x : A) (ok : Bool)
        → Serves es (some (x ∷ q))
        → Serves (es ++ (handed x ok ∷ [])) (some q)

  -- The items of a channel, as the promise sees them.
  abbrev pub view : Channel A → Option (List A)
  view ch = if ch.made then some ch.buffer else none

  start-Serves :
      (publisher : Bool) (ch : Channel A) (es : List (Event A))
      → IsOrdered ch es
      → Serves es (view ch)
      → Serves es (view (start publisher ch))
  unfolding start
  start-Serves publisher ch es o h = elim (Bool-cases (publisher && not ch.made)) [
    | inl on ↦
        let off : ch.made ≡ false = ground arith in
        rw (on, o.idle (sym o.made_with_publisher ∙ off)) (opens (rw off at h))
    | inr same ↦ rw same h
  ]

  send-Serves :
      (x : A) (ch ch' : Channel A) (es : List (Event A))
      → Serves es (view ch)
      → send x ch ≡ some ch'
      → Serves (es ++ (accepted x ∷ [])) (view ch')
  send-Serves x ch ch' es h e =
      let (same, made, room) = send-eq-some x ch ch' e in
      rw (same, made) (accepts x (rw made at h) room)

  send-eq-none :
      (x : A) (ch : Channel A)
      → send x ch ≡ none
      → length ch.buffer ≤ capacity
      → (ch.made ≡ false) ⊎ ((ch.made ≡ true) × (length ch.buffer ≡ capacity))
  unfolding send
  send-eq-none x ch e bounded = elim (Bool-cases ch.made) [
    | inl made ↦ inr (made, ground arith)
    | inr off ↦ inl off
  ]

  dropped-Serves :
      (x : A) (ch : Channel A) (es : List (Event A))
      → IsOrdered ch es
      → Serves es (view ch)
      → send x ch ≡ none
      → Serves (es ++ (refused x ∷ [])) (view ch)
  dropped-Serves x ch es o h e = elim (send-eq-none x ch e o.bounded) [
    | inl off ↦ rw off (denies x (rw off at h))
    | inr (made, full) ↦ rw made (refuses x (rw made at h) full)
  ]

  receive_from-Serves :
      (ok : Bool) (ch : Channel A) (es : List (Event A)) (b : List A)
      → ch.buffer ≡ b
      → IsOrdered ch es
      → Serves es (view ch)
      → Serves (es ++ (receive_from ok ch b).0) (view ((receive_from ok ch b).1))
  unfolding receive_from
  receive_from-Serves ok ch es [] e o h = subst (λ l. Serves l (view ch)) (sym (append-nil es)) h
  receive_from-Serves ok ch es (x ∷ rest) e o h = elim (Bool-cases ch.publisher) [
    | inl on ↦
        let made : ch.made ≡ true = o.made_with_publisher ∙ on in
        rw (on, made) (hands x ok (rw (made, e) at h))
    | inr off ↦ absurd (ground (arith, o.idle off))
  ]

  -- Whatever can be seen of a channel in any run of its producers and its loop, a bounded queue shows
  -- too: it takes an item up behind all others as long as fewer than its capacity wait, drops one
  -- only if it is not started or full, and calls `Publish` with the oldest item that waits, once,
  -- whether or not the call succeeds.
  pub Run-Serves : {ch : Channel A} {es : List (Event A)} → Run ch es → Serves es (view ch)
  unfolding receive
  Run-Serves begin = closed
  Run-Serves (started {ch} {es} publisher r) =
      start-Serves publisher ch es (Run-IsOrdered r) (Run-Serves r)
  Run-Serves (taken_up {ch} {ch'} {es} x r e) = send-Serves x ch ch' es (Run-Serves r) e
  Run-Serves (dropped {ch} {es} x r e) = dropped-Serves x ch es (Run-IsOrdered r) (Run-Serves r) e
  Run-Serves (round {ch} {es} ok r) =
      receive_from-Serves ok ch es ch.buffer refl (Run-IsOrdered r) (Run-Serves r)
