-- ===== src/Samples/Voting.antt =====
-- Voter changes at a view with two voters.
use dstore.Prelude.{ℕ, ◌≡◌, refl, true, [], ◌∷◌, arith, elem}
use dstore.View.{View, is_voter, quorum, voter_ids}
use dstore.Catalog.Views.{Edit, edited, refused}
use dstore.Node.Transition.{EditError}
use dstore.Node.Voters.{add_voter, remove_voter}
use dstore.Node.Voters.Overlap.{add_voter-IsQuorum, remove_voter-IsQuorum}
use dstore.Samples.Memory.{one_voter}

abbrev two_voters : View
two_voters = record one_voter {
  voters = record { id = 7; since = 2 } ∷ record { id = 9; since = 2 } ∷ [];
}

abbrev result : Edit EditError → View
result (edited v bump) = v
result (refused e) = two_voters

add_voter-IsQuorum_example : (a : ℕ) × (elem a (7 ∷ 9 ∷ []) ≡ true) × (elem a (9 ∷ 8 ∷ []) ≡ true)
unfolding add_voter is_voter voter_ids quorum
add_voter-IsQuorum_example =
    add_voter-IsQuorum 8 two_voters (result (add_voter 8 two_voters)) true (7 ∷ 9 ∷ []) (9 ∷ 8 ∷ [])
      refl (omega arith) (omega arith)

remove_voter-IsQuorum_example : (a : ℕ) × (elem a (7 ∷ 9 ∷ []) ≡ true) × (elem a (9 ∷ []) ≡ true)
unfolding remove_voter is_voter voter_ids quorum
remove_voter-IsQuorum_example =
    remove_voter-IsQuorum 7 two_voters (result (remove_voter 7 two_voters)) true (7 ∷ 9 ∷ [])
      (9 ∷ []) (refl, (refl, _)) refl (omega arith) (omega arith)
