-- ===== src/View.antt =====
-- view/view.go: the view's order, its membership tests and the guards on a change of the node set.
-- `NodeID` values are numbers; a missing node is `none`.
mod Types
pub mod Laws
pub mod Tables
pub use Types.*
use dstore.Prelude.{
  ℕ, zero, suc, ◌+◌, ◌-◌, ◌/◌, Ordering, Bool, true, false, ◌&&◌, ◌||◌, not, Option, none, some,
  List, [], ◌∷◌, ◌++◌, map, ltb, leb, ◌==◌, if◌then◌else◌, length, any, elem,
}
use dstore.Bytes.{Bytes, be_bytes}

-- The order of (incarnation, epoch) pairs: `lt` when the view is older.
unfoldable pub compare : View → ℕ → ℕ → Ordering
compare v inc epoch =
    if not (v.incarnation == inc)
    then (if ltb v.incarnation inc then Ordering.lt else Ordering.gt)
    else if not (v.epoch == epoch)
    then (if ltb v.epoch epoch then Ordering.lt else Ordering.gt)
    else Ordering.eq

unfoldable pub zone_or_id : Node → Bytes
zone_or_id n = if not (length n.zone == 0) then n.zone else be_bytes 32 n.id

-- The first node of a list with the id.
unfoldable pub find_node : List Node → ℕ → Option Node
find_node [] id = none
find_node (n ∷ ns) id = if n.id == id then some n else find_node ns id

-- The nodes of `pending`, none when no transition runs.
abbrev pub pending_nodes : Option Pending → List Node
pending_nodes none = []
pending_nodes (some p) = p.nodes

unfoldable pub node : View → ℕ → Option Node
unfolding find_node
node v id = elim (find_node v.nodes id) [
  | some n ↦ some n
  | none ↦ find_node (pending_nodes v.pending) id
]

-- `check` of DataEndpointOwner.
unfoldable pub endpoint_owner : List Node → ℕ → Option ℕ
endpoint_owner [] id = none
endpoint_owner (n ∷ ns) id =
    if any (λ (d : DataEndpoint). d.id == id) n.endpoints then some n.id else endpoint_owner ns id

unfoldable pub data_endpoint_owner : View → ℕ → Option ℕ
unfolding endpoint_owner
data_endpoint_owner v id = elim (endpoint_owner v.nodes id) [
  | some o ↦ some o
  | none ↦ endpoint_owner (pending_nodes v.pending) id
]

unfoldable pub is_member : View → ℕ → Bool
unfolding node data_endpoint_owner
is_member v id = elim (node v id) [
  | some n ↦ true
  | none ↦ elim (data_endpoint_owner v id) [ some o ↦ true | none ↦ false ]
]

unfoldable pub is_former : View → ℕ → Bool
is_former v id = any (λ (f : Former). f.id == id) v.former

unfoldable pub is_voter : View → ℕ → Bool
is_voter v id = any (λ (vo : Voter). vo.id == id) v.voters

unfoldable pub voter_ids : View → List ℕ
voter_ids v = map (λ (vo : Voter). vo.id) v.voters

unfoldable pub quorum : View → ℕ
quorum v = length v.voters / 2 + 1

-- The loop of `add` in AllMembers: `out` also serves as the set `seen`.
unfoldable pub add_members : List ℕ → List Node → List ℕ
add_members out [] = out
add_members out (n ∷ ns) = add_members (if elem n.id out then out else out ++ n.id ∷ []) ns

unfoldable pub all_members : View → List ℕ
unfolding add_members
all_members v = add_members (add_members [] v.nodes) (pending_nodes v.pending)

unfoldable pub contains : List ℕ → ℕ → Bool
contains ids id = elem id ids

unfoldable pub add_id : List ℕ → ℕ → List ℕ
unfolding contains
add_id ids id = if contains ids id then ids else ids ++ id ∷ []

-- max(R - 1, 2) capped at R; `r - 1` stops at 0, where Go has -1, and both are below 2.
unfoldable pub default_min_replicas : ℕ → ℕ
default_min_replicas r = let m = if ltb (r - 1) 2 then 2 else r - 1 in if ltb r m then r else m

-- Whether a node stays, with a weight, in the target set.
unfoldable pub kept : List Node → Node → Bool
kept target n = any (λ (t : Node). n.id == t.id && ltb 0 t.weight) target

-- The count of the loop in ValidateChange.
unfoldable pub dropped : List Node → List Node → ℕ
unfolding kept
dropped [] target = 0
dropped (n ∷ cur) target =
    (if not (kept target n) && ltb 0 n.weight then 1 else 0) + dropped cur target

-- `true` stands for the nil error.
unfoldable pub validate_change : List Node → List Node → ℕ → Bool → Bool
unfolding dropped
validate_change cur target replicas force =
    if force then true else not (leb replicas (dropped cur target) && ltb 0 replicas)
