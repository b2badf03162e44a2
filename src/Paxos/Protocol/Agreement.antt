-- ===== src/Paxos/Protocol/Agreement.antt =====
-- The guarantee of the registers: what a quorum has decided is never lost.
use dstore.Prelude.{
  ℕ, ◌≡◌, refl, ◌≢◌, ◌⊎◌, inl, inr, sym, ap, ◌∙◌, Bool, true, none, some, List, [], ◌∷◌, elem, In,
  Distinct, arith,
}
use mathlib.Core.Path.{subst}
use dstore.Bytes.{Bytes}
use dstore.View.{View, voter_ids}
use dstore.Wire.{Msg, t_promise}
use dstore.Paxos.Ballot.{Ballot, zero_ballot, parse_ballot, parse_or_zero, ◌≼◌}
use dstore.Paxos.Disk.{Disk}
use dstore.Paxos.Acceptor.{row_accepted}
use dstore.Paxos.Proposer.{Row, zero_row, Reply, ok, prepare_round}
use dstore.Paxos.Proposer.Collect.{reply_ids, prepare_round-ok, Collected, elem-In}
use dstore.Paxos.Proposer.Votes.{length-le-count}
use dstore.Paxos.Protocol.{
  Proposal, promise_entry, Net, deliver_prepare, deliver_accept, Step, prepares, accepts, proposes,
  elsewhere, Reach, start, next,
}
use dstore.Paxos.Protocol.Log.{Backed, IsRowOf, History, Logs}
use dstore.Paxos.Protocol.Invariant.{Logs-propose}
use dstore.Paxos.Protocol.Steps.{Inv, prepares-Inv, accepts-Inv, elsewhere-Inv}
use dstore.Paxos.Protocol.Safety.{Chosen, Descends, chosen-Descends}

not-In-nil : {A : Type 0} (a : A) (xs : List A) → xs ≡ [] → ¬ In a xs
not-In-nil a xs e m = subst (In a) e m

module _ (D : Disk) (v : View) where
  module _ (s : Net D) (b : Ballot) (replies : List Reply) (row : Row) (x : Bytes) (has : Bool)
      (distinct : Distinct (reply_ids replies))
      (voters : (a : ℕ) → elem a (reply_ids replies) ≡ true → elem a (voter_ids v) ≡ true)
      (genuine : (a : ℕ) (m : Msg)
        → In (record { id = a; msg = some m }) replies
        → m.type ≡ t_promise
        → In (promise_entry a b m) s.promises)
      (heard : prepare_round D.decode v replies ≡ ok row) where
    abbrev proposal : Proposal
    proposal = record { at = b; value = x; has_value = has; parent = row }

    collected : Collected D.decode v zero_row 0 replies row
    collected = prepare_round-ok D.decode v replies row heard

    round-Backed : Backed v s.promises proposal
    round-Backed =
        let k = collected in
        let in_voters = λ (a : ℕ) (e : elem a k.ids ≡ true).
          let (m, h, le) = k.promisers.heard a e in voters a (elem-In a (some m) replies h.among) in
        (
          k.ids,
          omega (
            arith,
            k.enough,
            length-le-count k.ids (voter_ids v) (k.promisers.distinct distinct) in_voters,
          ),
          λ a e.
              let (m, h, le) = k.promisers.heard a e in
              (promise_entry a b m, genuine a m h.among h.type, refl, refl, le),
        )

    round-parent :
        Logs v s.promises s.votes s.proposals
        → (row.accepted ≡ zero_ballot) ⊎ ((p : Proposal) × In p s.proposals × IsRowOf row p)
    round-parent l = elim collected.source [
      | inl (pos, _) ↦ absurd (omega arith)
      | inr (a, m, h, e) ↦
          elim (l.promise_origin (promise_entry a b m) (genuine a m h.among h.type)) [
            | inl z ↦ inl (ap (λ (r : Row). r.accepted) e ∙ z)
            | inr vote ↦
                let (p, mem, at, value, hv) = l.vote_origin _ vote in
                inr (
                  p,
                  mem,
                  (
                    at ∙ ap (λ (r : Row). r.accepted) (sym e),
                    value ∙ ap (λ (r : Row). r.value) (sym e),
                    hv ∙ ap (λ (r : Row). r.has_value) (sym e),
                  ),
                )
          ]
    ]

    proposes-Inv :
        (reg : Bytes)
        → ((p : Proposal) → In p s.proposals → p.at ≢ b)
        → Inv D v reg s
        → Inv D v reg (record s { proposals = proposal ∷ s.proposals })
    proposes-Inv reg fresh h = record {
      fits = h.fits;
      logs = Logs-propose v proposal fresh round-Backed (round-parent h.logs) h.logs;
    }

  Step-Inv : (reg : Bytes) {s t : Net D} → Step D v reg s t → Inv D v reg s → Inv D v reg t
  Step-Inv reg {s} (prepares i m r e) h =
      rw e (
        subst (λ k. Inv D v k s → Inv D v k (deliver_prepare D i m s)) r (prepares-Inv D v i m s) h)
  Step-Inv reg {s} (accepts i now m p r mem at value hv e) h = rw e (
      subst (λ k. Inv D v k s → Inv D v k (deliver_accept D i now m s)) r
        (accepts-Inv D v i now m s p mem (at, value, hv)) h)
  Step-Inv reg {s} (proposes b replies row x has distinct voters genuine fresh heard e) h =
      rw e (proposes-Inv s b replies row x has distinct voters genuine heard reg fresh h)
  Step-Inv reg {s} (elsewhere i a same le e) h = rw e (elsewhere-Inv D v reg i a s same le h)

  -- Nothing is logged, and no acceptor has a row of the register.
  pub record IsStart (reg : Bytes) (s : Net D) : Type 0 where
    pub no_promises : s.promises ≡ []
    pub no_votes : s.votes ≡ []
    pub no_proposals : s.proposals ≡ []
    pub no_rows : (i : ℕ) → D.row_at ((s.acceptors i).db) reg ≡ none

  start-Inv : (reg : Bytes) (s : Net D) → IsStart reg s → Inv D v reg s
  unfolding row_accepted parse_or_zero parse_ballot
  start-Inv reg s h = record {
    fits = λ i. record {
      promise_le = λ p m by. absurd (not-In-nil p s.promises h.no_promises m);
      vote_le = λ w m by. absurd (not-In-nil w s.votes h.no_votes m);
      origin = inl (ap row_accepted (h.no_rows i));
    };
    logs = record {
      promise_votes = λ p w m n own lt. absurd (not-In-nil p s.promises h.no_promises m);
      promise_origin = λ p m. absurd (not-In-nil p s.promises h.no_promises m);
      vote_origin = λ w n. absurd (not-In-nil w s.votes h.no_votes n);
      vote_nonzero = λ w n. absurd (not-In-nil w s.votes h.no_votes n);
      history = subst (History v s.promises) (sym h.no_proposals) tt;
    };
  }

  Reach-Inv : (reg : Bytes) {s t : Net D} → Inv D v reg s → Reach D v reg s t → Inv D v reg t
  Reach-Inv reg h start = h
  Reach-Inv reg h (next r st) = Step-Inv reg st (Reach-Inv reg h r)

  -- In every state that the acceptors and the proposers of a view reach from an empty register: if a
  -- quorum of the voters has voted for a value at a ballot, every proposal at that ballot or above is of
  -- that value at that ballot, or was computed, through rows of proposals, from it.
  pub agreement :
      (reg : Bytes) (s t : Net D) (b : Ballot) (x : Bytes) (has : Bool) (p : Proposal)
      → IsStart reg s
      → Reach D v reg s t
      → Chosen v t.votes b x has
      → In p t.proposals
      → b ≼ p.at
      → Descends t.proposals b x has p
  agreement reg s t b x has p h r chosen mem le =
      chosen-Descends v t.promises t.votes t.proposals (Reach-Inv reg (start-Inv reg s h) r).logs b
        x has chosen p mem le
