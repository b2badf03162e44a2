-- ===== src/Samples/Collecting.antt =====
-- A collector's epoch on a cluster of two nodes, up to its sweep and a later re-sweep.
use dstore.Prelude.{ℕ, ◌≡◌, ◌≢◌, ◌⊎◌, refl, true, false, List, [], ◌∷◌, arith, elem}
use dstore.Bytes.{beq_bytes, be_bytes}
use dstore.View.{contains, add_id}
use dstore.View.Tables.{in_write_set}
use dstore.Placement.{
  less, score, fmix64, log2_fix, log2_bits, less_log, checked_score, bit_len, log2_rounds,
}
use dstore.Catalog.GcState.{GcState, GcEdit, edited, refused, no_gc}
use dstore.Node.Gc.Register.{
  GcRefusal, is_sweeping, is_idle, start_cycle, ack_barrier, start_mark, start_sweep, close_epoch,
  has_reported, waits, observe_sweep,
}
use dstore.Node.Gc.Cycle.{GcRun, Sound, starts, acks, marks, sweeps, begin, next, GcRun-Sound}
use dstore.Node.Gc.Sweep.{SweepInput, Local, live, proved_dead, poll_starts, dead_in, pack_of}
use dstore.Node.Gc.Waves.{observe_sweep-poll_starts}
use dstore.Node.Gc.Dead.{proved_dead-live}
use dstore.Samples.Transitions.{idle_view}

abbrev result : GcEdit GcRefusal → GcState
result (edited g) = g
result (refused g e) = g

abbrev opened_register : GcState
opened_register = result (start_cycle 10 100 (1 ∷ []) false no_gc)

abbrev joined_register : GcState
joined_register = result (ack_barrier 1 2 (result (ack_barrier 1 1 opened_register)))

abbrev marked : GcState
marked = result (start_mark 1 150 [] joined_register)

abbrev swept : GcState
swept = result (start_sweep 1 200 [] marked)

abbrev closed : GcState
closed = result (close_epoch 1 swept)

run : GcRun swept
unfolding start_cycle ack_barrier start_mark start_sweep contains is_sweeping is_idle
run =
    next
      (next
        (next (next (next begin (starts 10 100 (1 ∷ []) false (omega arith) refl)) (acks 1 1 refl))
          (acks 1 2 refl))
        (marks 1 150 [] refl))
      (sweeps 1 200 [] refl)

GcRun-Sound_example : Sound swept
GcRun-Sound_example = GcRun-Sound run

observe_sweep-poll_starts_example :
    (observe_sweep 1000 300 swept ≢ waits)
    ⊎ ((id : ℕ) × (elem id swept.acked ≡ true)
        × (has_reported swept id ≡ false)
        × ((done : List ℕ)
            → elem swept.epoch done ≡ false
            → poll_starts done false id swept ≡ true))
unfolding start_cycle ack_barrier start_mark start_sweep contains add_id
observe_sweep-poll_starts_example = observe_sweep-poll_starts 1000 300 swept refl (refl, (refl, _))

abbrev node_two : Local
node_two = record {
  self = 2;
  salt = λ id. id;
  is_corrupt = λ k. false;
  pinned = λ k c. false;
  settled = λ p v. true;
}

abbrev input : SweepInput
input = record {
  epoch = 1;
  count = 1;
  elig_below = 9;
  placement = record idle_view { replicas = 2 };
  eligible = (77, 3) ∷ [];
  marked = [];
  overflow = false;
}

proved_dead-live_example : live node_two input idle_view 77 ≡ false
unfolding proved_dead dead_in pack_of in_write_set less score fmix64 log2_fix log2_bits less_log
    checked_score bit_len log2_rounds beq_bytes be_bytes
proved_dead-live_example = proved_dead-live node_two input idle_view 77 3 refl
