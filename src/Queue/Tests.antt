-- ===== src/Queue/Tests.antt =====
-- A run of the program: an item before the start, a start, two items, and a round of the loop in which
-- `Publish` fails.
use middle.Prelude.{ℕ, true, false, List, [], ◌∷◌, ◌++◌, ◌≡◌, some, refl}
use middle.Queue.{Channel, Event, accepted, refused, handed, start, send, receive}
use middle.Queue.Order.{
  Run, begin, started, taken_up, dropped, round, IsOrdered, Run-IsOrdered, accepted_of, handed_of,
}
use middle.Queue.Drain.{rounds, rounds-Run}
use middle.Queue.Fifo.{Serves, Run-Serves}

abbrev before_round : Channel ℕ
before_round = record { made = true; publisher = true; buffer = 7 ∷ 8 ∷ [] }

abbrev after_round : Channel ℕ
after_round = record { made = true; publisher = true; buffer = 8 ∷ [] }

abbrev sent : List (Event ℕ)
sent = refused 6 ∷ accepted 7 ∷ accepted 8 ∷ []

sent_both : Run before_round sent
unfolding start send
sent_both = taken_up 8 (taken_up 7 (started true (dropped 6 begin refl)) refl) refl

received : Run after_round (sent ++ (handed 7 false ∷ []))
unfolding receive
received = round false sent_both

Run-IsOrdered_example : IsOrdered after_round (sent ++ (handed 7 false ∷ []))
Run-IsOrdered_example = Run-IsOrdered received

rounds-Run_example :
    (handed_of (sent ++ (rounds (true ∷ false ∷ []) before_round).0) ≡ accepted_of sent)
    × ((rounds (true ∷ false ∷ []) before_round).1.buffer ≡ [])
rounds-Run_example = rounds-Run (true ∷ false ∷ []) sent_both refl

Run-Serves_example : Serves (sent ++ (handed 7 false ∷ [])) (some (8 ∷ []))
Run-Serves_example = Run-Serves received
