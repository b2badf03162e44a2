-- ===== src/Node/Transition.antt =====
-- node/maintenance.go and node/reconcile.go: the edits of the view that carry a change of the placement
-- set from its proposal to its commit. Each is the function that CASView applies; `now` is the clock in it.
pub mod Run
pub mod Evolves
pub mod Safety
pub mod Builds
pub mod Drive
pub mod Entry
use dstore.Prelude.{
  ℕ, zero, suc, ◌+◌, ◌-◌, ◌*◌, ◌/◌, ◌%◌, ◌^◌, Bool, true, false, ◌&&◌, ◌||◌, not, Option, none,
  some, List, [], ◌∷◌, ◌++◌, map, ltb, leb, ◌==◌, if◌then◌else◌, length, elem, any,
}
use dstore.Bytes.{Bytes}
use dstore.View.{
  View, Node, Pending, Former, Ramp, sync_pending, VoterSync, sync_done, contains, add_id,
  all_members, is_voter, validate_change,
}
use dstore.Catalog.Views.{Edit, edited, refused}

-- An edit of a running transition; `e` is its error where none runs.
abbrev pub on_pending : {E : Type 0} → Option Pending → E → (Pending → Edit E) → Edit E
on_pending none e f = refused e
on_pending (some p) e f = f p

-- The errors of an edit; `abort` is catalog.ErrAbort.
pub data EditError : Type 0 where
  abort in_progress voter_change drops_too_many not_member no_frozen changed_concurrently :
      EditError

abbrev pub is_pending : VoterSync → Bool
is_pending sync_pending = true
is_pending sync_done = false

abbrev pub min : ℕ → ℕ → ℕ
min a b = if ltb b a then b else a

-- The function that builds the target set inside proposeTransition: it may edit the view as well.
abbrev pub Build : Type 0
Build = View → Pending → Option (View × Pending)

abbrev new_pending : ℕ → Bytes → View → Pending
new_pending now reason v = record {
  nodes = v.nodes;
  replicas = v.replicas;
  id = 0;
  participants_ack = [];
  participants = [];
  frozen = false;
  round = 0;
  primary_done = [];
  done = [];
  frozen_at = 0;
  reason = reason;
  ramp = none;
  since = now;
}

-- An edit where no transition runs; `e` is its error where one does.
abbrev pub when_idle : {E : Type 0} → Option Pending → E → Edit E → Edit E
when_idle none e x = x
when_idle (some p) e x = refused e

-- proposeTransition, from the result of `fn` on.
unfoldable pub propose_built : Option (View × Pending) → Edit EditError
propose_built none = refused not_member
propose_built (some (v, p)) =
    if not (validate_change v.nodes p.nodes v.replicas false)
    then refused drops_too_many
    else edited (record v { pending = some (record p { id = (v.epoch + 1) % 2 ^ 64 }) }) true

-- proposeTransition
unfoldable pub propose_edit : ℕ → Bytes → Build → View → Edit EditError
unfolding propose_built
propose_edit now reason build v = when_idle v.pending in_progress (
    if is_pending v.voter_sync
    then refused voter_change
    else propose_built (build v (new_pending now reason v)))

-- The acknowledged members, in the order of AllMembers.
unfoldable pub acked_members : List ℕ → List ℕ → List ℕ → List ℕ
acked_members parts ack [] = parts
acked_members parts ack (id ∷ ids) =
    acked_members (if contains ack id then add_id parts id else parts) ack ids

-- The edit of driveTransition that freezes transition `id`.
unfoldable pub freeze_pending : ℕ → ℕ → View → Pending → Edit EditError
unfolding acked_members
freeze_pending now id v p =
    if not (p.id == id) || p.frozen
    then refused abort
    else edited
        (record v {
          pending = some (record p {
            participants = acked_members [] p.participants_ack (all_members v);
            frozen = true;
            frozen_at = now;
          });
        })
        true

unfoldable pub freeze_edit : ℕ → ℕ → View → Edit EditError
unfolding freeze_pending
freeze_edit now id v = on_pending v.pending abort (freeze_pending now id v)

-- The participants that stay in a new round.
unfoldable pub kept_parts : Pending → Bool → List ℕ → List ℕ
kept_parts p force [] = []
kept_parts p force (id ∷ ids) =
    let rest = kept_parts p force ids in
    if contains p.done id || contains p.primary_done id && not force then id ∷ rest else rest

-- refreeze
unfoldable pub refreeze_pending : ℕ → Bool → View → Pending → Edit EditError
unfolding kept_parts
refreeze_pending now force v p =
    let parts = kept_parts p force p.participants in
    if not p.frozen
    then refused no_frozen
    else if length parts == length p.participants && not force
    then refused abort
    else edited
        (record v {
          pending = some (record p {
            participants = parts;
            round = (p.round + 1) % 2 ^ 32;
            done = [];
            primary_done = [];
            frozen_at = now;
          });
        })
        true

unfoldable pub refreeze_edit : ℕ → Bool → View → Edit EditError
unfolding refreeze_pending
refreeze_edit now force v = on_pending v.pending no_frozen (refreeze_pending now force v)

abbrev pub all_in : List ℕ → List ℕ → Bool
all_in ids [] = true
all_in ids (x ∷ xs) = contains ids x && all_in ids xs

-- The ids of `v.Nodes` that the target lacks, each once. Go ranges over a map here, in any order.
unfoldable pub removed_ids : List ℕ → List ℕ → List Node → List ℕ
removed_ids seen target [] = []
removed_ids seen target (n ∷ ns) =
    let rest = removed_ids (n.id ∷ seen) target ns in
    if elem n.id target || elem n.id seen then rest else n.id ∷ rest

abbrev pub month : ℕ
month = 30 * 24 * 3600 * 1000000000

abbrev pub node_ids : List Node → List ℕ
node_ids ns = map (λ (n : Node). n.id) ns

-- The loop over the removed nodes in commit.
unfoldable pub retire_nodes : ℕ → View → List ℕ → View
retire_nodes now v [] = v
retire_nodes now v (id ∷ ids) =
    retire_nodes now
      (record v {
        former = v.former ++ record { id = id; until = now + month } ∷ [];
        remove_voters = if is_voter v id then add_id v.remove_voters id else v.remove_voters;
      })
      ids

unfoldable pub unexpired : ℕ → List Former → List Former
unexpired now [] = []
unexpired now (f ∷ fs) = let rest = unexpired now fs in if ltb now f.until then f ∷ rest else rest

-- commit
unfoldable pub commit_pending : ℕ → ℕ → ℕ → View → Pending → Edit EditError
unfolding removed_ids retire_nodes unexpired
commit_pending now id round v p =
    let r = retire_nodes now v (removed_ids [] (node_ids p.nodes) v.nodes) in
    if not (p.id == id) || not (p.round == round)
    then refused abort
    else if not (all_in p.done p.participants)
    then refused abort
    else edited
        (record r {
          nodes = p.nodes;
          replicas = p.replicas;
          min_replicas = min v.min_replicas p.replicas;
          placement_epoch = p.id;
          pending = none;
          former = unexpired now r.former;
        })
        true

unfoldable pub commit_edit : ℕ → ℕ → ℕ → View → Edit EditError
unfolding commit_pending
commit_edit now id round v = on_pending v.pending abort (commit_pending now id round v)

-- The edit of adoptTransition: node `self` acknowledges.
unfoldable pub ack_pending : ℕ → ℕ → View → Pending → Edit EditError
ack_pending id self v p =
    if not (p.id == id) || contains p.participants_ack self
    then refused abort
    else edited
        (record v {
          pending = some (record p { participants_ack = add_id p.participants_ack self });
        })
        false

unfoldable pub ack_edit : ℕ → ℕ → View → Edit EditError
unfolding ack_pending
ack_edit id self v = on_pending v.pending abort (ack_pending id self v)

-- casPending, with the two functions that transitionStep gives it.
abbrev pub add_primary : ℕ → Pending → Pending
add_primary self p = record p { primary_done = add_id p.primary_done self }

abbrev pub add_done : ℕ → Pending → Pending
add_done self p = record p { done = add_id p.done self }

unfoldable pub cas_pending : ℕ → (Pending → Pending) → View → Edit EditError
cas_pending id fn v = on_pending v.pending abort (λ p.
    if not (p.id == id) then refused abort else edited (record v { pending = some (fn p) }) false)
