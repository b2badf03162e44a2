-- ===== src/Samples/PaxosRun.antt =====
-- A run of one voter: a promise, a proposal and a vote.
use dstore.Prelude.{ℕ, ◌≡◌, refl, inl, inr, ap, true, none, some, [], ◌∷◌, elem, arith, Option}
use dstore.Bytes.{Bytes, be_bytes, be_value, beq_bytes}
use dstore.Paxos.Disk.{row_after}
use dstore.Wire.{Msg, empty_msg}
use dstore.View.{voter_ids, quorum}
use dstore.Paxos.Ballot
use dstore.Paxos.Ballot.{Ballot, parse_ballot, parse_or_zero, is_zero, above, less, ≼_refl}
use dstore.Paxos.Acceptor.{prepare, accept, usable_ballot, refusal}
use dstore.Paxos.Acceptor.Handle.{tag}
use dstore.Paxos.Proposer.{zero_row, Reply, ok, prepare_msg, accept_msg, prepare_round, is_accepted}
use dstore.Paxos.Protocol.{
  Net, Proposal, promise_entry, deliver_prepare, deliver_accept, prepares, accepts, proposes, Reach,
  start, next,
}
use dstore.Paxos.Protocol.Safety.{Chosen, Descends}
use dstore.Paxos.Protocol.Agreement.{agreement}
use dstore.Samples.Memory.{memory, one_voter, fresh_acceptor, start_net}

abbrev reg : Bytes
reg = 114 ∷ []

abbrev first : Ballot
first = record { counter = 1; proposer = 7 }

abbrev prepare_first : Msg
prepare_first = prepare_msg one_voter reg first

abbrev prepared_state : Net memory
prepared_state = deliver_prepare memory 7 prepare_first start_net

-- The reply that the voter's `Handle` sends.
abbrev promise_reply : Msg
promise_reply = tag memory (fresh_acceptor 7) (prepare memory (fresh_acceptor 7) prepare_first).1

abbrev proposal : Proposal
proposal = record { at = first; value = 9 ∷ []; has_value = true; parent = zero_row }

abbrev after_propose : Net memory
after_propose = record prepared_state { proposals = proposal ∷ [] }

abbrev accept_first : Msg
accept_first = accept_msg one_voter reg first (9 ∷ []) true 0

abbrev after_accept : Net memory
after_accept = deliver_accept memory 7 0 accept_first after_propose

-- The definitions that a run computes with.
runs : ℕ
unfolding prepare_round tag prepare accept prepare_msg accept_msg quorum usable_ballot parse_ballot
    parse_or_zero is_zero Ballot.bytes above less be_bytes be_value beq_bytes row_after
    deliver_prepare deliver_accept voter_ids refusal is_accepted
runs = 0

round_succeeds :
    prepare_round memory.decode one_voter (record { id = 7; msg = some promise_reply } ∷ [])
    ≡ ok zero_row
unfolding runs
round_succeeds = refl

after_accept_votes :
    after_accept.votes ≡ record { by = 7; at = first; value = 9 ∷ []; has_value = true } ∷ []
unfolding runs
after_accept_votes = refl

abbrev sent : Option Msg → Msg
sent none = empty_msg
sent (some m) = m

its_id : (a : ℕ) → elem a (7 ∷ []) ≡ true → 7 ≡ a
its_id a e = ground arith

reach : Reach memory one_voter reg start_net after_accept
unfolding runs
reach =
    next
      (next (next start (prepares 7 prepare_first refl refl)) (
        proposes first (record { id = 7; msg = some promise_reply } ∷ []) zero_row (9 ∷ []) true
          (refl, tt) (λ a e. e)
          (λ a m i t. elim i [
            | inl e ↦ inl (ap (λ (r : Reply). promise_entry r.id first (sent r.msg)) e)
            | inr n ↦ absurd n
          ])
          (λ p m. absurd m) round_succeeds refl))
      (accepts 7 0 accept_first proposal refl (inl refl) refl refl refl refl)

chosen : Chosen one_voter after_accept.votes first (9 ∷ []) true
unfolding runs
chosen = (
  7 ∷ [],
  omega arith,
  λ a e. inl (
      ap (λ (k : ℕ). record { by = k; at = first; value = 9 ∷ []; has_value = true }) (its_id a e)),
)

agreement_example : Descends after_accept.proposals first (9 ∷ []) true proposal
unfolding deliver_accept
agreement_example =
    agreement memory one_voter reg start_net after_accept first (9 ∷ []) true proposal
      (record { no_promises = refl; no_votes = refl; no_proposals = refl; no_rows = λ i. refl })
      reach chosen (inl refl) (≼_refl first)
