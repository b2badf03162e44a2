-- ===== src/Paxos/Protocol/Steps.antt =====
-- Every step of the protocol, with the code's handlers and the code's prepare round, keeps the invariant.
use dstore.Prelude.{
  ℕ, ◌≡◌, refl, ◌≢◌, inl, inr, sym, Bool, true, false, List, ◌∷◌, In, arith, ◌==◌, ==_iff,
  Bool-cases,
}
use mathlib.Core.Path.{subst}
use dstore.Bytes.{Bytes}
use dstore.View.{View}
use dstore.Wire.{Msg}
use dstore.Paxos.Ballot.{Ballot, parse_or_zero, ◌≼◌, ≼_trans}
use dstore.Paxos.Disk.{Disk}
use dstore.Paxos.Acceptor.{Acceptor, prepare, accept}
use dstore.Paxos.Proposer.Collect.{is_promise_iff, is_accepted_iff}
use dstore.Paxos.Protocol.{
  Promise, Vote, Proposal, promise_entry, vote_entry, update, Net, deliver_prepare, deliver_accept,
}
use dstore.Paxos.Protocol.Cell.{
  Cell, cell_of, CellPromised, CellVoted, prepare-refines, accept-refines, row_promise_mono,
}
use dstore.Paxos.Protocol.Log.{Fits, Logs}
use dstore.Paxos.Protocol.Invariant.{
  Fits-promise_other, Fits-vote_other, Fits-promised, Fits-voted, Logs-promise, Logs-vote,
}

not_true : {b : Bool} → b ≢ true → b ≡ false
not_true {b} h = ground arith

module _ (D : Disk) (v : View) where
  pub record Inv (reg : Bytes) (s : Net D) : Type 0 where
    pub fits : (i : ℕ) → Fits s.promises s.votes i (cell_of D reg (s.acceptors i))
    pub logs : Logs v s.promises s.votes s.proposals

  -- One acceptor is replaced.
  Fits-update :
      (reg : Bytes) (ps : List Promise) (vs : List Vote) (f : ℕ → Acceptor D) (i : ℕ)
      (a : Acceptor D)
      → ((j : ℕ) → i ≢ j → Fits ps vs j (cell_of D reg (f j)))
      → Fits ps vs i (cell_of D reg a)
      → (j : ℕ) → Fits ps vs j (cell_of D reg (update f i a j))
  Fits-update reg ps vs f i a others own j = elim (Bool-cases (i == j)) [
    | inl e ↦ rw e (subst (λ k. Fits ps vs k (cell_of D reg a)) ((==_iff i j).0 e) own)
    | inr e ↦ rw e (others j (λ q. cc ((==_iff i j).1 q)))
  ]

  unchanged-Inv :
      (reg : Bytes) (i : ℕ) (a : Acceptor D) (s : Net D)
      → a ≡ s.acceptors i
      → Inv reg s
      → Inv reg (record s { acceptors = update s.acceptors i a })
  unchanged-Inv reg i a s e h = record {
    fits =
        Fits-update reg s.promises s.votes s.acceptors i a (λ j ne. h.fits j)
          (subst (λ x. Fits s.promises s.votes i (cell_of D reg x)) (sym e) (h.fits i));
    logs = h.logs;
  }

  promised-Inv :
      (i : ℕ) (m : Msg) (s : Net D) (a : Acceptor D) (reply : Msg)
      → Inv m.reg s
      → CellPromised (cell_of D m.reg (s.acceptors i)) m reply (cell_of D m.reg a)
      → Inv m.reg (record s {
        acceptors = update s.acceptors i a;
        promises = promise_entry i (parse_or_zero m.ballot) reply ∷ s.promises;
      })
  promised-Inv i m s a reply h p =
      let c : Cell = cell_of D m.reg (s.acceptors i) in
      let b : Ballot = parse_or_zero m.ballot in
      let e : Promise = promise_entry i b reply in
      record {
        fits =
            Fits-update m.reg (e ∷ s.promises) s.votes s.acceptors i a
              (λ j ne. Fits-promise_other e ne (h.fits j))
              (subst (Fits (e ∷ s.promises) s.votes i) (sym p.becomes)
                (Fits-promised c b e (h.fits i) p.above_old refl));
        logs =
            subst (λ (x : Promise). Logs v (x ∷ s.promises) s.votes s.proposals)
              (λ k. record {
                by = i;
                at = b;
                accepted = sym p.reports_ballot k;
                value = sym p.reports_value k;
                has_value = sym p.reports_has k;
              })
              (Logs-promise v i c b (h.fits i) h.logs);
      }

  pub prepares-Inv :
      (i : ℕ) (m : Msg) (s : Net D) → Inv m.reg s → Inv m.reg (deliver_prepare D i m s)
  unfolding deliver_prepare
  prepares-Inv i m s h = elim (prepare-refines D (s.acceptors i) m) [
    | inl p ↦
        rw ((is_promise_iff ((prepare D (s.acceptors i) m).1.type)).1 p.is_promise)
          (promised-Inv i m s _ _ h p)
    | inr (same, ty) ↦
        rw (not_true (λ e. ty ((is_promise_iff _).0 e))) (unchanged-Inv m.reg i _ s same h)
  ]

  voted-Inv :
      (i : ℕ) (m : Msg) (s : Net D) (a : Acceptor D) (q : Proposal)
      → In q s.proposals
      → (q.at ≡ parse_or_zero m.ballot) × (q.value ≡ m.value) × (q.has_value ≡ m.has_value)
      → Inv m.reg s
      → CellVoted (cell_of D m.reg (s.acceptors i)) m (cell_of D m.reg a)
      → Inv m.reg
          (record s { acceptors = update s.acceptors i a; votes = vote_entry i m ∷ s.votes })
  voted-Inv i m s a q mem same h p =
      let c : Cell = cell_of D m.reg (s.acceptors i) in
      let b : Ballot = parse_or_zero m.ballot in
      record {
        fits =
            Fits-update m.reg s.promises (vote_entry i m ∷ s.votes) s.acceptors i a
              (λ j ne. Fits-vote_other (vote_entry i m) ne (h.fits j))
              (subst (Fits s.promises (vote_entry i m ∷ s.votes) i) (sym p.becomes)
                (Fits-voted i c b m.value m.has_value (h.fits i) p.old_promise p.old_accepted));
        logs = Logs-vote v (vote_entry i m) c q (h.fits i) p.old_promise p.nonzero mem same h.logs;
      }

  pub accepts-Inv :
      (i now : ℕ) (m : Msg) (s : Net D) (q : Proposal)
      → In q s.proposals
      → (q.at ≡ parse_or_zero m.ballot) × (q.value ≡ m.value) × (q.has_value ≡ m.has_value)
      → Inv m.reg s
      → Inv m.reg (deliver_accept D i now m s)
  unfolding deliver_accept
  accepts-Inv i now m s q mem same h = elim (accept-refines D (s.acceptors i) m now) [
    | inl (p, ty) ↦
        rw ((is_accepted_iff ((accept D now (s.acceptors i) m).1.type)).1 ty)
          (voted-Inv i m s _ q mem same h p)
    | inr (same', ty) ↦
        rw (not_true (λ e. ty ((is_accepted_iff _).0 e))) (unchanged-Inv m.reg i _ s same' h)
  ]

  pub elsewhere-Inv :
      (reg : Bytes) (i : ℕ) (a : Acceptor D) (s : Net D)
      → D.row_at a.db reg ≡ D.row_at ((s.acceptors i).db) reg
      → (s.acceptors i).floor ≼ a.floor
      → Inv reg s
      → Inv reg (record s { acceptors = update s.acceptors i a })
  elsewhere-Inv reg i a s e le h = record {
    fits = Fits-update reg s.promises s.votes s.acceptors i a (λ j ne. h.fits j) own;
    logs = h.logs;
  }
    where
      own : Fits s.promises s.votes i (cell_of D reg a)
      own = rw e (record {
        promise_le = λ p m by.
            ≼_trans _ _ _ ((h.fits i).promise_le p m by)
              (row_promise_mono ((s.acceptors i).floor) a.floor _ le);
        vote_le = (h.fits i).vote_le;
        origin = (h.fits i).origin;
      })
