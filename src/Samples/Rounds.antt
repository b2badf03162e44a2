-- ===== src/Samples/Rounds.antt =====
-- One prepare and one accept round at a single voter.
use dstore.Prelude.{ℕ, ◌≡◌, ◌≢◌, ◌⊎◌, refl, true, some, [], ◌∷◌}
use dstore.Bytes.{be_bytes, be_value, beq_bytes}
use dstore.Wire.{Msg, t_promise, t_accepted}
use dstore.View
use dstore.View.{quorum, voter_ids}
use dstore.Paxos.Ballot
use dstore.Paxos.Ballot.{Ballot, parse_ballot, parse_or_zero, is_zero, above, less}
use dstore.Paxos.Disk.{row_after}
use dstore.Paxos.Acceptor.{prepare, accept, usable_ballot, refusal}
use dstore.Paxos.Acceptor.Handle.{handle, dispatch, gate, tag}
use dstore.Paxos.Proposer.{
  Reply, zero_row, ok, prepare_msg, accept_msg, prepare_round, accept_round, is_accepted,
}
use dstore.Paxos.Proposer.Collect.{Collected, prepare_round-ok}
use dstore.Paxos.Proposer.Votes.{Acceptances, accept_round-ok}
use dstore.Paxos.Protocol.Cell.{cell_of, CellPromised, CellVoted, prepare-refines, accept-refines}
use dstore.Samples.Memory.{memory, one_voter, fresh_acceptor}

abbrev low : Ballot
low = record { counter = 3; proposer = 300 }

abbrev ask : Msg
ask = prepare_msg one_voter (114 ∷ []) low

abbrev vote : Msg
vote = accept_msg one_voter (114 ∷ []) low (9 ∷ []) true 0

runs : ℕ
unfolding prepare_round accept_round tag prepare accept prepare_msg accept_msg quorum usable_ballot
    parse_ballot parse_or_zero is_zero Ballot.bytes above less be_bytes be_value beq_bytes row_after
    refusal is_accepted handle dispatch gate View.compare
runs = 0

prepare-refines_example :
    CellPromised
      (cell_of memory ask.reg (fresh_acceptor 7))
      ask
      (prepare memory (fresh_acceptor 7) ask).1
      (cell_of memory ask.reg (prepare memory (fresh_acceptor 7) ask).0)
    ⊎ (((prepare memory (fresh_acceptor 7) ask).0 ≡ fresh_acceptor 7)
        × ((prepare memory (fresh_acceptor 7) ask).1.type ≢ t_promise))
prepare-refines_example = prepare-refines memory (fresh_acceptor 7) ask

accept-refines_example :
    (CellVoted
        (cell_of memory vote.reg (fresh_acceptor 7))
        vote
        (cell_of memory vote.reg (accept memory 10 (fresh_acceptor 7) vote).0)
      × ((accept memory 10 (fresh_acceptor 7) vote).1.type ≡ t_accepted))
    ⊎ (((accept memory 10 (fresh_acceptor 7) vote).0 ≡ fresh_acceptor 7)
        × ((accept memory 10 (fresh_acceptor 7) vote).1.type ≢ t_accepted))
accept-refines_example = accept-refines memory (fresh_acceptor 7) vote 10

abbrev promise_of_seven : Reply
promise_of_seven = record { id = 7; msg = some (handle memory 10 (fresh_acceptor 7) ask).1 }

abbrev vote_of_seven : Reply
vote_of_seven = record { id = 7; msg = some (handle memory 10 (fresh_acceptor 7) vote).1 }

prepared : prepare_round memory.decode one_voter (promise_of_seven ∷ []) ≡ ok zero_row
unfolding runs
prepared = refl

accepted : accept_round memory.decode one_voter (vote_of_seven ∷ []) ≡ ok tt
unfolding runs
accepted = refl

prepare_round-ok_example :
    Collected memory.decode one_voter zero_row 0 (promise_of_seven ∷ []) zero_row
prepare_round-ok_example =
    prepare_round-ok memory.decode one_voter (promise_of_seven ∷ []) zero_row prepared

accept_round-ok_example : Acceptances memory.decode one_voter 0 (vote_of_seven ∷ [])
accept_round-ok_example = accept_round-ok memory.decode one_voter (vote_of_seven ∷ []) accepted
