-- ===== src/Samples/Runs.antt =====
-- Proposals, a reference write and a lease through one voter.
use dstore.Prelude.{ℕ, ◌≡◌, refl, true, false, none, some, [], ◌∷◌}
use dstore.Bytes.{Bytes, be_bytes, be_value, beq_bytes}
use dstore.View
use dstore.View.{quorum}
use dstore.Paxos.Disk.{row_after}
use dstore.Paxos.Ballot
use dstore.Paxos.Ballot.{◌≺◌, Ballot, parse_ballot, parse_or_zero, is_zero, above, less}
use dstore.Paxos.Acceptor.{prepare, accept, usable_ballot, refusal}
use dstore.Paxos.Acceptor.Handle.{handle, dispatch, gate, tag}
use dstore.Paxos.Proposer.{Row, prepare_msg, accept_msg, prepare_round, accept_round, is_accepted}
use dstore.Paxos.Proposer.Propose.{
  propose, propose_from, ballot_above, attempt, after_prepare, after_change, after_commit, Change,
  commit, Outcome,
}
use dstore.Paxos.Proposer.Commit.{Committed, propose-Committed}
use dstore.Catalog.{RefValue, Cond, check, is_tombstone, CatalogError}
use dstore.Catalog.Refs.{put_change, put_decoded, put_checked, row_ref, ref_reg, answered}
use dstore.Catalog.Refs.Swap.{put_run, put-Committed, live_version}
use dstore.Catalog.Leases.{
  acquire_lease, acquire_answer, acquire_change, row_lease, is_taken, lease_reg, own_lease,
  Available, acquire_lease-Committed, Held,
}
use dstore.Samples.Cluster.{cluster, new_machine, plain_codec, Machine}

abbrev set_nine : Unit {0} → Row → Ballot → Unit {0} × Change ℕ
set_nine s cur b = (s, commit (9 ∷ []) true)

runs : ℕ
unfolding prepare_round accept_round tag prepare accept prepare_msg accept_msg quorum usable_ballot
    parse_ballot parse_or_zero is_zero Ballot.bytes above less be_bytes be_value beq_bytes row_after
    refusal is_accepted handle dispatch gate propose propose_from ballot_above attempt after_prepare
    after_change after_commit View.compare put_change put_decoded put_checked row_ref check
    is_tombstone ref_reg acquire_lease acquire_answer acquire_change row_lease is_taken
runs = 0

no_error : (propose cluster (114 ∷ []) set_nine 0 3 new_machine tt).2.error ≡ none
unfolding runs
no_error = refl

propose-Committed_example :
    Committed cluster
      (114 ∷ [])
      set_nine
      0
      (propose cluster (114 ∷ []) set_nine 0 3 new_machine tt).1
      (propose cluster (114 ∷ []) set_nine 0 3 new_machine tt).2
propose-Committed_example =
    propose-Committed cluster (114 ∷ []) set_nine 0 3 new_machine tt no_error

-- A first write of the name "a", which must not exist.
abbrev new_name : Cond
new_name = record {
  expected_version = none;
  versioned = true;
  expected_old = none;
  keyed = false;
  force = false;
}

abbrev key_of : Bytes → Bytes
key_of b = b

abbrev put : Machine × Bytes × Outcome CatalogError
put = put_run plain_codec key_of (5 ∷ 6 ∷ []) new_name cluster (97 ∷ []) 0 3 new_machine

put_no_error : put.2.error ≡ none
unfolding runs
put_no_error = refl

put-Committed_example :
    (k : Committed cluster
      (ref_reg (97 ∷ []))
      (put_change plain_codec key_of (5 ∷ 6 ∷ []) new_name)
      0
      put.1
      put.2)
    × ((rv : RefValue) × (row_ref plain_codec k.cur ≡ some rv) × (live_version rv ≡ none))
    × (put.1 ≡ Ballot.bytes put.2.ballot)
    × (plain_codec.decode_ref put.2.value
        ≡ some (record { content = 5 ∷ 6 ∷ []; deleted_at = 0; version = put.1 }))
put-Committed_example =
    put-Committed plain_codec key_of (5 ∷ 6 ∷ []) new_name cluster (97 ∷ []) 0 3 new_machine refl
      refl put_no_error

abbrev self_id : Bytes
self_id = 7 ∷ []

abbrev held_now : Held plain_codec
held_now = record { cur = record { holder = self_id; expires = 110 }; held = true }

takes_lease : (acquire_lease plain_codec self_id 100 10 cluster 3 new_machine).1 ≡ answered held_now
unfolding runs
takes_lease = refl

acquire_lease-Committed_example :
    (o : Outcome CatalogError) × (k : Committed cluster lease_reg
      (acquire_change plain_codec self_id 100 10)
      0
      held_now
      o)
    × Available plain_codec self_id 10 (row_lease plain_codec k.cur)
    × (row_lease plain_codec
          (record { accepted = o.ballot; value = o.value; has_value = o.has_value })
        ≡ own_lease plain_codec self_id 100 10)
acquire_lease-Committed_example =
    acquire_lease-Committed plain_codec self_id 100 10 cluster 3 new_machine held_now takes_lease
      refl
