-- ===== src/Node/Voters.antt =====
-- node/maintenance.go: the edits of the view by which the voters change, one at a time but for the step
-- from one voter to three.
pub mod Overlap
use dstore.Prelude.{
  ℕ, ◌+◌, ◌%◌, ◌^◌, ◌/◌, Bool, true, false, ◌&&◌, ◌||◌, not, Option, none, some, List, [], ◌∷◌,
  ◌++◌, map, ltb, leb, ◌==◌, if◌then◌else◌, length, elem,
}
use dstore.Bytes.{Bytes, be_bytes, be_value}
use dstore.View.{View, Voter, sync_pending, sync_done, is_voter, voter_ids, add_id, contains}
use dstore.Catalog.Views.{Edit, edited, refused}
use dstore.Node.Transition.{EditError, abort, changed_concurrently, is_pending}
use dstore.Node.Transition.Builds.{remove_id}

-- addVoter
unfoldable pub add_voter : ℕ → View → Edit EditError
unfolding is_voter remove_id
add_voter id v =
    if is_pending v.voter_sync || is_voter v id
    then refused changed_concurrently
    else edited
        (record v {
          voters = v.voters ++ record { id = id; since = (v.epoch + 1) % 2 ^ 64 } ∷ [];
          voter_sync = sync_pending;
          voter_sync_target = be_bytes 32 id;
          voter_sync_add = true;
          voter_sync_cursor = [];
          deferred_voters = remove_id id v.deferred_voters;
        })
        true

-- The second node of addVoterFromSingle waits.
unfoldable pub defer_voter : ℕ → View → Edit EditError
unfolding add_id
defer_voter id v = edited (record v { deferred_voters = add_id v.deferred_voters id }) false

abbrev pub new_voters : View → List ℕ → List Voter
new_voters v [] = []
new_voters v (id ∷ ids) = record { id = id; since = (v.epoch + 1) % 2 ^ 64 } ∷ new_voters v ids

-- The third node of addVoterFromSingle makes the voters three.
unfoldable pub three_voters : List ℕ → View → Edit EditError
three_voters new_ids v =
    if not (length v.voters == 1)
    then refused changed_concurrently
    else edited
        (record v {
          voters = v.voters ++ new_voters v new_ids;
          deferred_voters = [];
          voter_sync = sync_done;
        })
        true

abbrev pub without : ℕ → List Voter → List Voter
without id [] = []
without id (x ∷ xs) = let rest = without id xs in if x.id == id then rest else x ∷ rest

-- removeVoter
unfoldable pub remove_voter : ℕ → View → Edit EditError
unfolding is_voter remove_id
remove_voter id v =
    if is_pending v.voter_sync || not (is_voter v id)
    then refused changed_concurrently
    else edited
        (record v {
          voters = without id v.voters;
          voter_sync = sync_pending;
          voter_sync_target = be_bytes 32 id;
          voter_sync_add = false;
          voter_sync_cursor = [];
          remove_voters = remove_id id v.remove_voters;
        })
        true

-- The last edit of finishVoterSync.
unfoldable pub sync_finished : View → Edit EditError
sync_finished v =
    edited (record v { voter_sync = sync_done; voter_sync_cursor = []; voter_sync_target = [] })
      false

-- The edit of syncRegisters.
unfoldable pub sync_cursor : Bytes → View → Edit EditError
sync_cursor cursor v =
    if is_pending v.voter_sync
    then edited (record v { voter_sync_cursor = cursor }) false
    else refused abort

-- What addVoter decides before it edits.
pub data AddMove : Type 0 where
  already_voter change_running from_single no_majority adds : AddMove

unfoldable pub add_move : View → ℕ → Bool → AddMove
unfolding is_voter
add_move v id majority_answers =
    if is_voter v id
    then already_voter
    else if is_pending v.voter_sync
    then change_running
    else if length v.voters == 1
    then from_single
    else if not majority_answers
    then no_majority
    else adds

-- What removeVoter decides before it edits.
pub data RemoveMove : Type 0 where
  clears_request not_voter sync_running only_voter too_few removes : RemoveMove

unfoldable pub remove_move : View → ℕ → Bool → RemoveMove
unfolding is_voter contains
remove_move v id allow_unsafe =
    if not (is_voter v id)
    then (if contains v.remove_voters id then clears_request else not_voter)
    else if is_pending v.voter_sync
    then sync_running
    else if length v.voters == 1
    then only_voter
    else if leb (length v.voters) 3 && leb 3 (length v.nodes) && not allow_unsafe
    then too_few
    else removes

-- pingMajority, for the number that answer.
unfoldable pub ping_majority : List ℕ → ℕ → Bool
ping_majority ids answers = leb (length ids / 2 + 1) answers

-- How many of the ids that installed the view are old voters, as finishVoterSync counts them.
unfoldable pub count_equal : ℕ → List ℕ → ℕ
count_equal id [] = 0
count_equal id (o ∷ os) = (if o == id then 1 else 0) + count_equal id os

unfoldable pub count_installed : List ℕ → List ℕ → ℕ
unfolding count_equal
count_installed [] old = 0
count_installed (id ∷ ids) old = count_equal id old + count_installed ids old

unfoldable pub old_retired : List ℕ → List ℕ → Bool
unfolding count_installed
old_retired ok old = leb (length old / 2 + 1) (count_installed ok old)

-- The old voters of a change that an earlier holder left, in resumeVoterSync.
unfoldable pub resumed_old : View → List ℕ
unfolding voter_ids remove_id
resumed_old v =
    let target = be_value 0 v.voter_sync_target in
    if v.voter_sync_add then remove_id target (voter_ids v) else voter_ids v ++ target ∷ []
