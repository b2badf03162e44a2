-- ===== src/Paxos/Protocol.antt =====
-- paxos/: acceptors and proposers together, for one register at one view. A message may be delayed, lost
-- or repeated: a step takes any message that was ever sent. The logs of promises, votes and proposals are
-- what was ever answered or proposed; the program does not keep them.
pub mod Cell
pub mod Log
pub mod Invariant
pub mod Steps
pub mod Safety
pub mod Agreement
use dstore.Prelude.{
  ℕ, ◌≡◌, ◌≢◌, Bool, true, false, some, List, [], ◌∷◌, elem, Distinct, In, ◌==◌, if◌then◌else◌,
}
use dstore.Bytes.{Bytes}
use dstore.View.{View, voter_ids}
use dstore.Wire.{Msg, t_promise}
use dstore.Paxos.Ballot.{Ballot, parse_or_zero, ◌≼◌}
use dstore.Paxos.Disk.{Disk}
use dstore.Paxos.Acceptor.{Acceptor, prepare, accept}
use dstore.Paxos.Proposer.{Row, Reply, ok, prepare_round, is_promise, is_accepted}
use dstore.Paxos.Proposer.Collect.{reply_ids}
use Cell.{cell_of}

pub record Promise : Type 0 where
  pub by : ℕ
  pub at : Ballot
  pub accepted : Ballot
  pub value : Bytes
  pub has_value : Bool

pub record Vote : Type 0 where
  pub by : ℕ
  pub at : Ballot
  pub value : Bytes
  pub has_value : Bool

-- `parent` is the row that the value was computed from.
pub record Proposal : Type 0 where
  pub at : Ballot
  pub value : Bytes
  pub has_value : Bool
  pub parent : Row

-- The entry that a reply to a prepare at `b` makes.
abbrev pub promise_entry : ℕ → Ballot → Msg → Promise
promise_entry i b reply = record {
  by = i;
  at = b;
  accepted = parse_or_zero reply.accepted;
  value = reply.value;
  has_value = reply.has_value;
}

abbrev pub vote_entry : ℕ → Msg → Vote
vote_entry i m = record {
  by = i;
  at = parse_or_zero m.ballot;
  value = m.value;
  has_value = m.has_value;
}

abbrev pub update {ℓ} : {A : Type ℓ} → (ℕ → A) → ℕ → A → ℕ → A
update f i a j = if i == j then a else f j

pub record Net (D : Disk) : Type 0 where
  pub acceptors : ℕ → Acceptor D
  pub promises : List Promise
  pub votes : List Vote
  pub proposals : List Proposal

module _ (D : Disk) where
  -- Acceptor `i` handles a prepare message; a promise is logged.
  unfoldable pub deliver_prepare : ℕ → Msg → Net D → Net D
  deliver_prepare i m s =
      let (a, reply) = prepare D (s.acceptors i) m in
      record s {
        acceptors = update s.acceptors i a;
        promises =
            if is_promise reply.type
            then promise_entry i (parse_or_zero m.ballot) reply ∷ s.promises
            else s.promises;
      }

  -- Acceptor `i` handles an accept message at its time `now`; a vote is logged.
  unfoldable pub deliver_accept : ℕ → ℕ → Msg → Net D → Net D
  deliver_accept i now m s =
      let (a, reply) = accept D now (s.acceptors i) m in
      record s {
        acceptors = update s.acceptors i a;
        votes = if is_accepted reply.type then vote_entry i m ∷ s.votes else s.votes;
      }

  module _ (v : View) (reg : Bytes) where
    pub data Step (s t : Net D) : Type 0 where
      prepares : (i : ℕ) (m : Msg) → m.reg ≡ reg → t ≡ deliver_prepare i m s → Step s t
      -- An accept message carries the ballot and the value of a proposal.
      accepts :
          (i now : ℕ) (m : Msg) (p : Proposal)
          → m.reg ≡ reg
          → In p s.proposals
          → p.at ≡ parse_or_zero m.ballot
          → p.value ≡ m.value
          → p.has_value ≡ m.has_value
          → t ≡ deliver_accept i now m s
          → Step s t
      -- A proposer whose prepare round succeeded on promises that voters gave for its ballot, which nobody
      -- has proposed at, proposes any value.
      proposes :
          (b : Ballot) (replies : List Reply) (row : Row) (value : Bytes) (has_value : Bool)
          → Distinct (reply_ids replies)
          → ((a : ℕ) → elem a (reply_ids replies) ≡ true → elem a (voter_ids v) ≡ true)
          → ((a : ℕ) (m : Msg)
              → In (record { id = a; msg = some m }) replies
              → m.type ≡ t_promise
              → In (promise_entry a b m) s.promises)
          → ((p : Proposal) → In p s.proposals → p.at ≢ b)
          → prepare_round D.decode v replies ≡ ok row
          → t ≡ record s {
            proposals =
                record { at = b; value = value; has_value = has_value; parent = row } ∷ s.proposals;
          }
          → Step s t
      -- Whatever else happens to an acceptor: messages of other registers, restarts, a raised floor.
      elsewhere :
          (i : ℕ) (a : Acceptor D)
          → D.row_at a.db reg ≡ D.row_at ((s.acceptors i).db) reg
          → (s.acceptors i).floor ≼ a.floor
          → t ≡ record s { acceptors = update s.acceptors i a }
          → Step s t

    pub data Reach (s : Net D) : Net D → Type 0 where
      start : Reach s s
      next : {t u : Net D} → Reach s t → Step t u → Reach s u
