-- ===== src/Samples/References.antt =====
-- A reference to a tree of two objects, put through one voter.
use dstore.Prelude.{
  ◌⊎◌, sym, ap, ◌∙◌, ℕ, ◌≡◌, ◌≢◌, inl, inr, refl, Bool, true, false, Option, none, some, List, [],
  ◌∷◌, ◌==◌, if◌then◌else◌, elem, arith, Bool-cases,
}
use dstore.Bytes.{Bytes, be_bytes, be_value, beq_bytes}
use dstore.View
use dstore.View.{View, quorum}
use dstore.Placement.{
  less, score, fmix64, log2_fix, log2_bits, less_log, checked_score, bit_len, log2_rounds,
}
use dstore.Paxos.Disk.{row_after}
use dstore.Paxos.Ballot
use dstore.Paxos.Ballot.{Ballot, parse_ballot, parse_or_zero, is_zero, above}
use dstore.Paxos.Acceptor.{prepare, accept, usable_ballot, refusal}
use dstore.Paxos.Acceptor.Handle.{handle, dispatch, gate, tag}
use dstore.Paxos.Proposer.{prepare_msg, accept_msg, prepare_round, accept_round, is_accepted}
use dstore.Paxos.Proposer.Propose.{
  propose, propose_from, ballot_above, attempt, after_prepare, after_change, after_commit,
}
use dstore.Catalog.{check, is_tombstone}
use dstore.Catalog.Refs.{answered, put_change, put_decoded, put_checked, row_ref, ref_reg, ref_put}
use dstore.Node.Puts.{
  PutResult, Failed, rejected_by_owner, finish, wait_all, wait, failed_at, confirmed_by, add_all,
  add, send_all, send_to, flush_chunk,
}
use dstore.Node.Puts.Reports.{is_holder, has_failed, finish-reports}
use dstore.View.Tables.{write_set}
use dstore.Node.RefPut.{
  Fetched, found, absent, out_of_fuel, Walked, walk_complete, levels, is_complete,
}
use dstore.Node.RefPut.Checked.{Under}
use dstore.Node.RefPut.Ends.{kids-same}
use dstore.Node.RefPut.Enough.{HeldByEnough}
use dstore.Node.RefPut.Handler.{
  RefMsg, RefReply, put_ok, Decoded, fits, cond_of, handle_ref_put, put_walked,
}
use dstore.Node.RefPut.Fuel.{walk_complete-ends}
use dstore.Node.RefPut.Answers.{handle_ref_put-HeldByEnough}
use dstore.Samples.Cluster.{cluster, new_machine, plain_codec, Machine}
use dstore.Samples.Transitions.{idle_view}

abbrev own : ℕ → ℕ
own id = id

-- Every owner holds what it is asked about.
abbrev all_there : ℕ → ℕ → List ℕ → Option (List ℕ)
all_there round o keys = some []

abbrev is_six : ℕ → Bool
is_six k = k == 6

abbrev tree : ℕ → Fetched
tree k = if k == 5 then found (6 ∷ []) else absent

abbrev tree_children : ℕ → List ℕ
tree_children k = if k == 5 then 6 ∷ [] else []

-- Key 6 was found complete long before the cutoff.
abbrev old_cache : List (ℕ × ℕ)
old_cache = (6, 40) ∷ []

abbrev not_cached : ℕ → Bool
not_cached = is_complete 100 old_cache

same_children :
    (b : Bool) (kids ks : List ℕ)
    → (if b then found kids else absent) ≡ found ks
    → ks ≡ (if b then kids else [])
same_children true kids ks e = sym (kids-same kids ks e)
same_children false kids ks e = cc

tree_reads : (k : ℕ) (ks : List ℕ) → tree k ≡ found ks → ks ≡ tree_children k
tree_reads k ks e = same_children (k == 5) (6 ∷ []) ks e

abbrev walk : ℕ → Walked
walk = walk_complete own idle_view all_there is_six tree not_cached 4

abbrev request : RefMsg
request = record {
  name = 97 ∷ [];
  content = 5 ∷ [];
  force = false;
  has_expected = true;
  expected_version = none;
  expected_old = none;
  version = none;
  cluster_id = [];
  incarnation = 1;
  epoch = 1;
}

abbrev five : Decoded
five = record { key = 5; name = 97 ∷ []; key_fits = true; name_fits = true }

abbrev bytes_of_key : Bytes → Bytes
bytes_of_key b = b

abbrev replied : Machine × RefReply
replied =
    handle_ref_put plain_codec bytes_of_key cluster 3 request (some five) fits walk 0 new_machine

abbrev version_of : RefReply → Bytes
version_of (put_ok k v) = v
version_of _ = []

runs : ℕ
unfolding prepare_round accept_round tag prepare accept prepare_msg accept_msg quorum usable_ballot
    parse_ballot parse_or_zero is_zero Ballot.bytes above Ballot.less be_bytes be_value beq_bytes
    row_after refusal is_accepted handle dispatch gate propose propose_from ballot_above attempt
    after_prepare after_change after_commit View.compare put_change put_decoded put_checked row_ref
    check is_tombstone ref_reg ref_put handle_ref_put put_walked cond_of walk_complete is_complete
    levels less score fmix64 log2_fix log2_bits less_log checked_score bit_len log2_rounds
runs = 0

succeeds : replied ≡ (replied.0, put_ok 5 (version_of replied.1))
unfolding runs
succeeds = refl

handle_ref_put-HeldByEnough_example :
    (ref_put plain_codec bytes_of_key (5 ∷ []) (cond_of request) cluster (97 ∷ []) 0 3 new_machine
      ≡ (replied.0, answered (version_of replied.1)))
    × ((five.key ≡ five.key)
        × ((k : ℕ)
            → Under is_six tree_children not_cached 5 k
            → HeldByEnough own idle_view all_there k))
handle_ref_put-HeldByEnough_example =
    handle_ref_put-HeldByEnough plain_codec bytes_of_key cluster 3 request five 0 new_machine own
      idle_view all_there is_six tree 100 old_cache tree_children tree_reads 4 fits replied.0 5
      (version_of replied.1) succeeds

-- No owner answers.
abbrev no_one : ℕ → ℕ → List ℕ → Option (List ℕ)
no_one round o keys = none

six_only :
    (kids : List ℕ)
    → found (6 ∷ []) ≡ found kids
    → (c : ℕ) → elem c kids ≡ true
    → elem c (5 ∷ 6 ∷ []) ≡ true
six_only kids e c i =
    let h : elem c (6 ∷ []) ≡ true = ap (λ x. elem c x) (kids-same (6 ∷ []) kids e) ∙ i in
    ground arith

tree_closed :
    (k : ℕ) (kids : List ℕ)
    → elem k (5 ∷ 6 ∷ []) ≡ true
    → tree k ≡ found kids
    → (c : ℕ) → elem c kids ≡ true
    → elem c (5 ∷ 6 ∷ []) ≡ true
tree_closed k kids h = elim (Bool-cases (k == 5)) [
  | inl t ↦ rw t (λ e c i. six_only kids e c i)
  | inr f ↦ rw f (λ e. cc)
]

walk_complete-ends_example :
    walk_complete own idle_view no_one is_six tree not_cached 3 5 ≢ out_of_fuel
walk_complete-ends_example =
    walk_complete-ends own idle_view no_one is_six tree not_cached (5 ∷ 6 ∷ []) tree_closed 5 3 refl
      (omega arith)

-- A batch of two records that node 2 takes for node 1, which rejects one of them.
abbrev half_rejected : ℕ → Option PutResult
half_rejected o = some (record { confirmed = 5 ∷ []; rejected = 6 ∷ [] })

abbrev six_failed : List Failed
six_failed = record { key = 6; node = 1; reason = rejected_by_owner } ∷ []

finish-reports_example :
    (is_holder 1 6 ((5, 2) ∷ (6, 2) ∷ (5, 1) ∷ []) ≡ true) ⊎ (has_failed 1 6 six_failed ≡ true)
unfolding finish wait_all wait failed_at confirmed_by add_all add send_all send_to flush_chunk
    write_set less score fmix64 log2_fix log2_bits less_log checked_score bit_len log2_rounds
finish-reports_example =
    finish-reports own idle_view 2 150 ((5, 100) ∷ (6, 200) ∷ []) half_rejected false
      ((5, 2) ∷ (6, 2) ∷ (5, 1) ∷ []) six_failed 1 6 refl refl refl (omega arith)
