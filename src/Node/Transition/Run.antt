-- ===== src/Node/Transition/Run.antt =====
-- The view over a sequence of committed edits: the placement set changes only by the commit of a frozen
-- transition whose participants have all reported done.
use dstore.Prelude.{ℕ, ◌+◌, ◌^◌, ◌≤◌, ◌<◌, ◌≡◌, Bool, true, none, some, List, [], ◌∷◌, In}
use dstore.Bytes.{Bytes}
use dstore.View.{View, Pending}
use dstore.Catalog.Views.{Edit, edited, stamped}
use dstore.Node.Transition.{
  EditError, Build, propose_edit, freeze_edit, refreeze_edit, commit_edit, ack_edit, cas_pending,
  add_primary, add_done,
}
use dstore.Node.Transition.Entry.{abort_transition, update_self}

-- The view that CASView commits for an edit.
pub record Cas (e : View → Edit EditError) (v v' : View) : Type 0 where
  pub after : View
  pub bump : Bool
  pub by_edit : e v ≡ edited after bump
  pub in_range : v.epoch + 1 < 2 ^ 64
  pub committed : v' ≡ stamped v after bump

-- An edit that is about something else: voters, ramps, access.
pub record Aside (v v' : View) : Type 0 where
  pub nodes_kept : v'.nodes ≡ v.nodes
  pub pending_kept : v'.pending ≡ v.pending
  pub epoch_up : v.epoch ≤ v'.epoch

-- A function that builds the target set leaves the nodes and the epoch alone and freezes nothing.
pub record Tame (build : Build) : Type 0 where
  pub tame :
      (v v' : View) (p p' : Pending)
      → build v p ≡ some (v', p')
      → (v'.nodes ≡ v.nodes) × (v'.epoch ≡ v.epoch)

-- One committed edit; `history` holds the views so far. The holder commits a transition that it has seen
-- frozen in some view.
pub data Step (history : List View) (v v' : View) : Type 0 where
  proposes :
      (now : ℕ) (reason : Bytes) (build : Build)
      → Tame build
      → Cas (propose_edit now reason build) v v'
      → Step history v v'
  freezes : (now id : ℕ) → Cas (freeze_edit now id) v v' → Step history v v'
  refreezes : (now : ℕ) (force : Bool) → Cas (refreeze_edit now force) v v' → Step history v v'
  commits :
      (now : ℕ) (seen : View) (p : Pending)
      → In seen history
      → seen.pending ≡ some p
      → p.frozen ≡ true
      → Cas (commit_edit now p.id p.round) v v'
      → Step history v v'
  acks : (id self : ℕ) → Cas (ack_edit id self) v v' → Step history v v'
  reports_primary : (id self : ℕ) → Cas (cas_pending id (add_primary self)) v v' → Step history v v'
  reports_done : (id self : ℕ) → Cas (cas_pending id (add_done self)) v v' → Step history v v'
  aborts : Cas abort_transition v v' → Step history v v'
  updates_self :
      (self : ℕ) (addrs : List Bytes) (writable : Bool)
      → Cas (update_self self addrs writable) v v'
      → Step history v v'
  does_aside : Aside v v' → Step history v v'

pub data Run (start : View) : View → List View → Type 0 where
  begin : start.pending ≡ none → Run start start (start ∷ [])
  next :
      {v v' : View} {history : List View}
      → Run start v history
      → Step history v v'
      → Run start v' (v' ∷ history)
