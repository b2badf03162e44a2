-- ===== src/Samples/Transitions.antt =====
-- A change of a weight from its proposal to its commit, and the ticks and ramps on the way.
use dstore.Prelude.{ℕ, ◌≡◌, ◌⊎◌, refl, inl, inr, true, false, none, some, [], ◌∷◌, arith}
use dstore.View.{View, Node, Pending, validate_change, contains, all_members, add_id}
use dstore.View.Tables.{members}
use dstore.Catalog.Views.{Edit, edited, refused, stamped}
use dstore.Node.Transition.{
  EditError, propose_edit, freeze_edit, commit_edit, ack_edit, cas_pending, add_done,
}
use dstore.Node.Transition.Run.{
  Step, Run, proposes, freezes, commits, acks, reports_done, begin, next,
}
use dstore.Node.Transition.Safety.{Commits, Step-Commits}
use dstore.Node.Transition.Builds.{node_weight, node_change, node_change-Tame}
use dstore.Samples.Memory.{one_voter}

abbrev a_node : ℕ → ℕ → Node
a_node id weight = record {
  id = id;
  weight = weight;
  addrs = [];
  endpoints = [];
  token = [];
  zone = [];
  incarnation = 1;
  writable = true;
}

abbrev pub idle_view : View
idle_view = record one_voter { nodes = a_node 1 4 ∷ a_node 2 4 ∷ [] }

abbrev result : Edit EditError → View
result (edited v bump) = v
result (refused e) = idle_view

abbrev proposal : View → Edit EditError
proposal = propose_edit 100 [] (node_change (node_weight 8) 2)

abbrev proposed : View
proposed = stamped idle_view (result (proposal idle_view)) true

abbrev acked : View
acked = stamped proposed (result (ack_edit 4 1 proposed)) false

abbrev frozen : View
frozen = stamped acked (result (freeze_edit 200 4 acked)) true

abbrev finished : View
finished = stamped frozen (result (cas_pending 4 (add_done 1) frozen)) false

abbrev committed : View
committed = stamped finished (result (commit_edit 300 4 0 finished)) true

abbrev pub pending_of : View → Pending
pending_of v = elim v.pending [
  | some p ↦ p
  | none ↦ record {
    nodes = [];
    replicas = 0;
    id = 0;
    participants_ack = [];
    participants = [];
    frozen = false;
    round = 0;
    primary_done = [];
    done = [];
    frozen_at = 0;
    reason = [];
    ramp = none;
    since = 0;
  }
]

run : Run idle_view finished (finished ∷ frozen ∷ acked ∷ proposed ∷ idle_view ∷ [])
unfolding propose_edit ack_edit freeze_edit cas_pending stamped node_change validate_change contains
run =
    next
      (next
        (next
          (next (begin refl) (
            proposes 100 [] (node_change (node_weight 8) 2) (node_change-Tame (node_weight 8) 2)
              (record {
                after = result (proposal idle_view);
                bump = true;
                by_edit = refl;
                in_range = omega arith;
                committed = refl;
              })))
          (acks 4 1 (record {
            after = result (ack_edit 4 1 proposed);
            bump = false;
            by_edit = refl;
            in_range = omega arith;
            committed = refl;
          })))
        (freezes 200 4 (record {
          after = result (freeze_edit 200 4 acked);
          bump = true;
          by_edit = refl;
          in_range = omega arith;
          committed = refl;
        })))
      (reports_done 4 1 (record {
        after = result (cas_pending 4 (add_done 1) frozen);
        bump = false;
        by_edit = refl;
        in_range = omega arith;
        committed = refl;
      }))

commit-Step : Step (finished ∷ frozen ∷ acked ∷ proposed ∷ idle_view ∷ []) finished committed
unfolding propose_edit ack_edit freeze_edit cas_pending commit_edit stamped node_change
    validate_change contains all_members add_id
commit-Step = commits 300 frozen (pending_of frozen) (inr (inl refl)) refl refl (record {
  after = result (commit_edit 300 4 0 finished);
  bump = true;
  by_edit = refl;
  in_range = omega arith;
  committed = refl;
})

Step-Commits_example :
    (members committed.nodes ≡ members finished.nodes) ⊎ Commits finished committed
Step-Commits_example = Step-Commits run commit-Step
