-- ===== src/Paxos/Protocol/Cell.antt =====
-- One register of one acceptor without its encoding: the abstract cell that the handlers implement.
use dstore.Prelude.{ℕ, ◌≡◌, ◌≢◌, ◌⊎◌, inl, inr, ap, sym, ◌∙◌, Bool, Option, none, some, arith}
use dstore.Bytes.{Bytes}
use dstore.Wire.{Msg, t_promise, t_accepted}
use dstore.Paxos.Ballot.{Ballot, parse_or_zero, ◌≼◌, ◌≺◌, ≼_refl, above, zero_ballot}
use dstore.Paxos.Disk.{Disk, Row}
use dstore.Paxos.Acceptor.{Acceptor, row_or_empty, row_promise, usable_ballot, prepare, accept}
use dstore.Paxos.Acceptor.Observe.{
  promise_of, accepted_of, current_row, row_at-Stored_self, zero_ballot-≺-usable_ballot,
}
use dstore.Paxos.Acceptor.Rounds.{Promised, Voted, prepare_cases, accept_cases}

pub record Cell : Type 0 where
  pub promise : Ballot
  pub accepted : Ballot
  pub value : Bytes
  pub has_value : Bool

abbrev pub cell_of : (D : Disk) → Bytes → Acceptor D → Cell
cell_of D reg a = record {
  promise = promise_of D a reg;
  accepted = accepted_of D a reg;
  value = (current_row D a reg).value;
  has_value = (current_row D a reg).has_value;
}

parse_or_zero-usable : (x : Bytes) (b : Ballot) → usable_ballot x ≡ some b → parse_or_zero x ≡ b
unfolding usable_ballot parse_or_zero
parse_or_zero-usable x b h = ground arith

-- A higher floor never lowers a promise.
pub row_promise_mono : (f g : Ballot) (o : Option Row) → f ≼ g → row_promise f o ≼ row_promise g o
unfolding row_promise above
row_promise_mono f g (some r) h = ≼_refl _
row_promise_mono f g none h = ground arith

-- The specification of the prepare round: a promise above the old one, and nothing else changes.
pub record CellPromised (c : Cell) (m : Msg) (reply : Msg) (c' : Cell) : Type 0 where
  pub above_old : c.promise ≺ parse_or_zero m.ballot
  pub becomes : c' ≡ record c { promise = parse_or_zero m.ballot }
  pub is_promise : reply.type ≡ t_promise
  pub reports_ballot : parse_or_zero reply.accepted ≡ c.accepted
  pub reports_value : reply.value ≡ c.value
  pub reports_has : reply.has_value ≡ c.has_value

-- The specification of the accept round: a vote at a ballot that nothing seen is above.
pub record CellVoted (c : Cell) (m : Msg) (c' : Cell) : Type 0 where
  pub nonzero : zero_ballot ≺ parse_or_zero m.ballot
  pub old_promise : c.promise ≼ parse_or_zero m.ballot
  pub old_accepted : c.accepted ≼ parse_or_zero m.ballot
  pub becomes : c' ≡ record {
    promise = parse_or_zero m.ballot;
    accepted = parse_or_zero m.ballot;
    value = m.value;
    has_value = m.has_value;
  }

module _ (D : Disk) (a : Acceptor D) (m : Msg) where
  pub cell_of-Promised :
      (a' : Acceptor D) (reply : Msg)
      → Promised D a m a' reply
      → CellPromised (cell_of D m.reg a) m reply (cell_of D m.reg a')
  cell_of-Promised a' reply p =
      let row = row_at-Stored_self D m.reg p.stored in
      let e : parse_or_zero m.ballot ≡ p.ballot = parse_or_zero-usable m.ballot p.ballot p.usable in
      record {
        above_old = rw e p.above_old;
        becomes = λ i. record {
          promise = (p.promise_new ∙ sym e) i;
          accepted = (p.accepted_kept) i;
          value = ap (λ (o : Option Row). (row_or_empty o).value) row i;
          has_value = ap (λ (o : Option Row). (row_or_empty o).has_value) row i;
        };
        is_promise = p.is_promise;
        reports_ballot = p.reports_ballot;
        reports_value = p.reports_value;
        reports_has = p.reports_has;
      }

  pub cell_of-Voted :
      (now : ℕ) (a' : Acceptor D)
      → Voted D a m now a'
      → CellVoted (cell_of D m.reg a) m (cell_of D m.reg a')
  cell_of-Voted now a' p =
      let row = row_at-Stored_self D m.reg p.stored in
      let e : parse_or_zero m.ballot ≡ p.ballot = parse_or_zero-usable m.ballot p.ballot p.usable in
      record {
        nonzero = rw e (zero_ballot-≺-usable_ballot m.ballot p.ballot p.usable);
        old_promise = rw e p.old_promise;
        old_accepted = rw e p.old_accepted;
        becomes = λ i. record {
          promise = (p.promise_new ∙ sym e) i;
          accepted = (p.accepted_new ∙ sym e) i;
          value = ap (λ (o : Option Row). (row_or_empty o).value) row i;
          has_value = ap (λ (o : Option Row). (row_or_empty o).has_value) row i;
        };
      }

  -- The prepare handler implements the cell's promise: a promise in reply is one of the specification,
  -- and otherwise the acceptor is as it was.
  pub prepare-refines :
      (CellPromised (cell_of D m.reg a) m (prepare D a m).1 (cell_of D m.reg (prepare D a m).0))
      ⊎ (((prepare D a m).0 ≡ a) × ((prepare D a m).1.type ≢ t_promise))
  prepare-refines = elim (prepare_cases D a m) [
    | inl p ↦ inl (cell_of-Promised _ _ p)
    | inr q ↦ inr q
  ]

  -- The accept handler implements the cell's vote: an acceptance in reply is one of the specification,
  -- and otherwise the acceptor is as it was.
  pub accept-refines :
      (now : ℕ)
      → (CellVoted (cell_of D m.reg a) m (cell_of D m.reg (accept D now a m).0)
          × ((accept D now a m).1.type ≡ t_accepted))
        ⊎ (((accept D now a m).0 ≡ a) × ((accept D now a m).1.type ≢ t_accepted))
  accept-refines now = elim (accept_cases D a m now) [
    | inl (p, e) ↦ inl (cell_of-Voted now _ p, e)
    | inr q ↦ inr q
  ]
