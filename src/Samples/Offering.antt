-- ===== src/Samples/Offering.antt =====
-- The offers of a key with three owners in a transition.
use dstore.Prelude.{◌≡◌, refl, true, ◌&&◌, ◌||◌, not, [], ◌∷◌, ◌==◌, if◌then◌else◌, elem, arith}
use dstore.View.{Pending}
use dstore.Node.Reconcile.{rank_among, is_ready, transition_targets}
use dstore.Node.Reconcile.Offers.{transition_targets-elem}
use dstore.Node.Reconcile.Ready.{is_ready-rank_among}
use dstore.Samples.Transitions.{pending_of, idle_view}

transition_targets-elem_example :
    elem 8 (transition_targets 2 true (4 ∷ 2 ∷ 7 ∷ []) (2 ∷ 8 ∷ 7 ∷ [])) ≡ (
      not (8 == 2)
      && (if true
          then elem 8 (2 ∷ 8 ∷ 7 ∷ []) && not (elem 8 (4 ∷ 2 ∷ 7 ∷ []))
          else elem 8 (2 ∷ 8 ∷ 7 ∷ []) || elem 8 (4 ∷ 2 ∷ 7 ∷ [])))
transition_targets-elem_example = transition_targets-elem 2 true (4 ∷ 2 ∷ 7 ∷ []) (2 ∷ 8 ∷ 7 ∷ []) 8

-- A transition frozen at 200, of which node 4 has reported its pass done.
abbrev under_way : Pending
under_way = record (pending_of idle_view) { frozen_at = 200; primary_done = 4 ∷ [] }

second_ready : is_ready 30 210 under_way (rank_among (4 ∷ 2 ∷ 7 ∷ []) 2 (4 ∷ 2 ∷ 7 ∷ [])) ≡ true
unfolding is_ready rank_among
second_ready = refl

is_ready-rank_among_example : elem 4 under_way.primary_done ≡ true
is_ready-rank_among_example =
    is_ready-rank_among 30 210 under_way (4 ∷ 2 ∷ 7 ∷ []) (4 ∷ []) (7 ∷ []) 2 4 refl refl refl refl
      (omega arith) second_ready
