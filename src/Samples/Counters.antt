-- ===== src/Samples/Counters.antt =====
-- Two ballot counters with a restart between them.
use dstore.Prelude.{true, refl, [], ◌∷◌, arith}
use dstore.Node.Ballots.{
  next_ballot, Run, start, draws, restarts, restart, Descending, Run-Descending, Counter,
}

abbrev empty_counter : Counter
empty_counter = record { persisted = 0; next = 0; max = 0 }

abbrev after_first : Counter
after_first = (next_ballot true true empty_counter).0

restarted-Run : Run (next_ballot true true (restart after_first)).0 (1001 ∷ 1 ∷ [])
unfolding next_ballot
restarted-Run =
    draws true 1001 (restarts (draws true 1 start (omega arith) refl)) (omega arith) refl

Run-Descending_example : Descending (1001 ∷ 1 ∷ [])
Run-Descending_example = Run-Descending restarted-Run
