-- ===== src/Node/Transition/Builds.antt =====
-- node/maintenance.go and node/join.go: the target sets of operator requests, weight ramps and joins. An
-- edit of the view that comes with it is only of its ramps and its deferred voters.
use dstore.Prelude.{
  ℕ, ◌+◌, ◌/◌, ◌≡◌, Bool, true, false, ◌||◌, Option, none, some, List, [], ◌∷◌, ◌++◌, any, ltb,
  ◌==◌, if◌then◌else◌, arith,
}
use dstore.Bytes.{Bytes, beq_bytes}
use dstore.View.{View, Node, Pending, Ramp, pending_nodes}
use dstore.Node.Transition.{Build}
use dstore.Node.Transition.Run.{Tame}

-- The operations of nodeChange.
pub data Op : Type 0 where
  node_remove node_drain : Op
  node_weight : ℕ → Op
  node_zone : Bytes → Op

unfoldable pub drop_ramp : ℕ → List Ramp → List Ramp
drop_ramp id [] = []
drop_ramp id (r ∷ rs) = let rest = drop_ramp id rs in if r.node == id then rest else r ∷ rest

-- The loop of nodeChange: the first node with the id is changed; none where there is no such node.
unfoldable pub change_nodes : Op → ℕ → List Node → Option (List Node)
change_nodes op id [] = none
change_nodes op id (n ∷ ns) =
    let here : List Node = elim op [
      | node_remove ↦ ns
      | node_drain ↦ record n { weight = 0 } ∷ ns
      | node_weight w ↦ record n { weight = w } ∷ ns
      | node_zone z ↦ record n { zone = z } ∷ ns
    ] in
    let there : Option (List Node) = elim (change_nodes op id ns) [
      | none ↦ none
      | some rest ↦ some (n ∷ rest)
    ] in
    if n.id == id then some here else there

abbrev pub keeps_ramp : Op → Bool
keeps_ramp (node_zone z) = true
keeps_ramp _ = false

unfoldable pub node_change : Op → ℕ → Build
unfolding change_nodes drop_ramp
node_change op id v p = elim (change_nodes op id p.nodes) [
  | none ↦ none
  | some ns ↦ some (
    record v { ramps = if keeps_ramp op then v.ramps else drop_ramp id v.ramps },
    record p { nodes = ns },
  )
]

-- firstRampWeight
unfoldable pub first_ramp_weight : ℕ → Bool → ℕ
first_ramp_weight w no_ramp = if no_ramp || ltb w 8 then w else w / 8

-- The loop of nextRampWeight, over the steps in the order in which it takes them.
unfoldable pub next_step : ℕ → ℕ → List ℕ → ℕ
next_step cur target [] = target
next_step cur target (step ∷ steps) =
    let rest = next_step cur target steps in if ltb cur (target / step) then target / step else rest

-- `rampSteps` is 8, 4, 2, 1, and the loop runs from its end.
unfoldable pub next_ramp_weight : ℕ → ℕ → ℕ
unfolding next_step
next_ramp_weight cur target = next_step cur target (1 ∷ 2 ∷ 4 ∷ 8 ∷ [])

unfoldable pub set_weight : ℕ → ℕ → List Node → List Node
set_weight id w [] = []
set_weight id w (n ∷ ns) = (if n.id == id then record n { weight = w } else n) ∷ set_weight id w ns

unfoldable pub count_step : ℕ → List Ramp → List Ramp
count_step id [] = []
count_step id (r ∷ rs) =
    (if r.node == id then record r { step = r.step + 1 } else r) ∷ count_step id rs

-- The step that nextRamp proposes, to weight `next`.
unfoldable pub ramp_step : ℕ → ℕ → Build
unfolding set_weight count_step
ramp_step id next v p =
    some
      (record v { ramps = count_step id v.ramps }, record p { nodes = set_weight id next p.nodes })

-- tokenUsed
abbrev pub any_token : Bytes → List Node → Bool
any_token id nodes = any (λ (n : Node). beq_bytes n.token id) nodes

unfoldable pub token_used : View → Bytes → Bool
token_used v id = any_token id v.nodes || any_token id (pending_nodes v.pending)

unfoldable pub remove_id : ℕ → List ℕ → List ℕ
remove_id id [] = []
remove_id id (x ∷ xs) = let rest = remove_id id xs in if x == id then rest else x ∷ rest

-- SortNodes after an append, as an insertion.
unfoldable pub insert_node : Node → List Node → List Node
insert_node n [] = n ∷ []
insert_node n (x ∷ xs) = if ltb n.id x.id then n ∷ x ∷ xs else x ∷ insert_node n xs

unfoldable pub sort_nodes : List Node → List Node
unfolding insert_node
sort_nodes [] = []
sort_nodes (n ∷ ns) = insert_node n (sort_nodes ns)

pub record JoinRequest : Type 0 where
  pub id : ℕ
  pub token_id : Bytes
  pub weight : ℕ
  pub zone : Bytes
  pub addrs : List Bytes
  pub no_vote : Bool
  pub no_ramp : Bool

unfoldable pub joined : JoinRequest → Node
unfolding first_ramp_weight
joined r = record {
  id = r.id;
  weight = first_ramp_weight r.weight r.no_ramp;
  addrs = r.addrs;
  endpoints = [];
  token = r.token_id;
  zone = r.zone;
  incarnation = 1;
  writable = true;
}

-- The target that admitNode proposes.
unfoldable pub admit : JoinRequest → Build
unfolding token_used remove_id sort_nodes first_ramp_weight joined
admit r v p =
    let first = first_ramp_weight r.weight r.no_ramp in
    let new_ramp : Ramp = record { node = r.id; target = r.weight; step = 1 } in
    if token_used v r.token_id
    then none
    else some (
      record v {
        ramps = if ltb first r.weight then v.ramps ++ new_ramp ∷ [] else v.ramps;
        deferred_voters = if r.no_vote then remove_id r.id v.deferred_voters else v.deferred_voters;
      },
      record p { nodes = sort_nodes (p.nodes ++ joined r ∷ []) },
    )

-- A ramp has no steps in between: whatever the weight, the next one is the target.
pub next_ramp_weight_lem : (cur target : ℕ) → next_ramp_weight cur target ≡ target
unfolding next_ramp_weight
next_ramp_weight_lem cur target = ground arith

module _ (v v' : View) (p p' : Pending) where
  node_change-kept :
      (op : Op) (id : ℕ)
      → node_change op id v p ≡ some (v', p')
      → (v'.nodes ≡ v.nodes) × (v'.epoch ≡ v.epoch)
  unfolding node_change
  node_change-kept op id h = ground arith

  ramp_step-kept :
      (id w : ℕ) → ramp_step id w v p ≡ some (v', p') → (v'.nodes ≡ v.nodes) × (v'.epoch ≡ v.epoch)
  unfolding ramp_step
  ramp_step-kept id w h = ground arith

  admit-kept :
      (r : JoinRequest) → admit r v p ≡ some (v', p') → (v'.nodes ≡ v.nodes) × (v'.epoch ≡ v.epoch)
  unfolding admit
  admit-kept r h = ground arith

-- The builds of the program are tame.
pub node_change-Tame : (op : Op) (id : ℕ) → Tame (node_change op id)
node_change-Tame op id = record { tame = λ v v' p p' h. node_change-kept v v' p p' op id h }

pub ramp_step-Tame : (id w : ℕ) → Tame (ramp_step id w)
ramp_step-Tame id w = record { tame = λ v v' p p' h. ramp_step-kept v v' p p' id w h }

pub admit-Tame : (r : JoinRequest) → Tame (admit r)
admit-Tame r = record { tame = λ v v' p p' h. admit-kept v v' p p' r h }
