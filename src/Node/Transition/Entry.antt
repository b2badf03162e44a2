-- ===== src/Node/Transition/Entry.antt =====
-- node/node.go, updateSelfEntry, and node/admin.go, transition-abort: the edits of the view outside a
-- transition's own course that touch its nodes or end it.
use dstore.Prelude.{
  ℕ, ◌≡◌, refl, ◌∙◌, ap, Bool, true, false, ◌&&◌, ◌||◌, not, Option, none, some, List, [], ◌∷◌, map,
  any, ◌==◌, if◌then◌else◌,
}
use dstore.Bytes.{Bytes, beq_bytes}
use dstore.View.{View, Node, Pending, pending_nodes, zone_or_id}
use dstore.View.Tables.{members}
use dstore.Placement.{Member}
use dstore.Catalog.Views.{Edit, edited, refused}
use dstore.Node.Transition.{EditError, abort, on_pending}

-- transition-abort
unfoldable pub abort_transition : View → Edit EditError
abort_transition v = on_pending v.pending abort (λ p. edited (record v { pending = none }) true)

-- sameStrings
unfoldable pub same_strings : List Bytes → List Bytes → Bool
same_strings [] [] = true
same_strings [] (b ∷ bs) = false
same_strings (a ∷ rest) [] = false
same_strings (a ∷ rest) (b ∷ bs) = beq_bytes a b && same_strings rest bs

abbrev pub same_flag : Bool → Bool → Bool
same_flag true b = b
same_flag false b = not b

-- The edit of updateSelfEntry, by node `self` with the addresses and the flag that it has now.
module _ (self : ℕ) (addrs : List Bytes) (writable : Bool) where
  unfoldable pub is_outdated : Node → Bool
  unfolding same_strings
  is_outdated m =
      m.id == self && (not (same_strings m.addrs addrs) || not (same_flag m.writable writable))

  unfoldable pub update_entry : Node → Node
  unfolding is_outdated
  update_entry m = if is_outdated m then record m { addrs = addrs; writable = writable } else m

  abbrev pub update_pending : Option Pending → Option Pending
  update_pending none = none
  update_pending (some p) = some (record p { nodes = map update_entry p.nodes })

  unfoldable pub update_self : View → Edit EditError
  unfolding update_entry is_outdated
  update_self v =
      if not (any is_outdated v.nodes || any is_outdated (pending_nodes v.pending))
      then refused abort
      else edited
          (record v { nodes = map update_entry v.nodes; pending = update_pending v.pending }) false

  member_if :
      (b : Bool) (m : Node)
      → (let m' = if b then record m { addrs = addrs; writable = writable } else m in
          ◌≡◌ {A = Member}
            (record { id = m'.id; weight = m'.weight; zone = zone_or_id m' })
            (record { id = m.id; weight = m.weight; zone = zone_or_id m }))
  unfolding zone_or_id
  member_if true m = refl
  member_if false m = refl

  -- The placement knows nothing of addresses and flags.
  pub members-update_entry : (ns : List Node) → members (map update_entry ns) ≡ members ns
  unfolding members update_entry
  members-update_entry [] = refl
  members-update_entry (m ∷ ns) =
      ap (λ (x : Member). x ∷ members (map update_entry ns)) (member_if (is_outdated m) m)
      ∙ ap (λ xs. record { id = m.id; weight = m.weight; zone = zone_or_id m } ∷ xs)
          (members-update_entry ns)
