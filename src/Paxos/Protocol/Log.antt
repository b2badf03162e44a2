-- ===== src/Paxos/Protocol/Log.antt =====
-- What the logs of a run satisfy together with the cells of the acceptors.
use dstore.Prelude.{ℕ, ◌≤◌, ◌≡◌, ◌≢◌, ◌⊎◌, true, List, [], ◌∷◌, count, elem, In}
use dstore.View.{View, quorum, voter_ids}
use dstore.Paxos.Ballot.{zero_ballot, ◌≼◌, ◌≺◌}
use dstore.Paxos.Proposer.{Row}
use dstore.Paxos.Protocol.{Promise, Vote, Proposal}
use dstore.Paxos.Protocol.Cell.{Cell}

-- The logs and the cell of acceptor `i`: its promise is above all it gave, its accepted ballot above all
-- its votes, and its row is a vote of its own.
pub record Fits (ps : List Promise) (vs : List Vote) (i : ℕ) (c : Cell) : Type 0 where
  pub promise_le : (p : Promise) → In p ps → p.by ≡ i → p.at ≼ c.promise
  pub vote_le : (w : Vote) → In w vs → w.by ≡ i → w.at ≼ c.accepted
  pub origin :
      (c.accepted ≡ zero_ballot)
      ⊎ In (record { by = i; at = c.accepted; value = c.value; has_value = c.has_value }) vs

-- A quorum of voters promised the proposal's ballot, and reported no accepted ballot above its parent's.
abbrev pub Backed : View → List Promise → Proposal → Type 0
Backed v ps q =
    (ids : List ℕ) × (quorum v ≤ count (λ a. elem a ids) (voter_ids v))
    × ((a : ℕ)
        → elem a ids ≡ true
        → (p : Promise) × In p ps × (p.by ≡ a) × (p.at ≡ q.at) × (p.accepted ≼ q.parent.accepted))

-- The row is that of the proposal.
abbrev pub IsRowOf : Row → Proposal → Type 0
IsRowOf r p = (p.at ≡ r.accepted) × (p.value ≡ r.value) × (p.has_value ≡ r.has_value)

-- Every proposal is at a ballot of its own, backed, and computed from an empty register or from the row
-- of an earlier proposal.
abbrev pub History : View → List Promise → List Proposal → Type 0
History v ps [] = Unit
History v ps (q ∷ rest) =
    ((p : Proposal) → In p rest → p.at ≢ q.at)
    × Backed v ps q
    × ((q.parent.accepted ≡ zero_ballot) ⊎ ((p : Proposal) × In p rest × IsRowOf q.parent p))
    × History v ps rest

pub record Logs (v : View) (ps : List Promise) (vs : List Vote) (qs : List Proposal) : Type 0 where
  pub promise_votes :
      (p : Promise) (w : Vote) → In p ps → In w vs → w.by ≡ p.by → w.at ≺ p.at → w.at ≼ p.accepted
  pub promise_origin :
      (p : Promise)
      → In p ps
      → (p.accepted ≡ zero_ballot)
        ⊎ In (record { by = p.by; at = p.accepted; value = p.value; has_value = p.has_value }) vs
  pub vote_origin :
      (w : Vote)
      → In w vs
      → (q : Proposal) × In q qs × (q.at ≡ w.at) × (q.value ≡ w.value) × (q.has_value ≡ w.has_value)
  pub vote_nonzero : (w : Vote) → In w vs → zero_ballot ≺ w.at
  pub history : History v ps qs
