-- ===== src/Paxos/Proposer.antt =====
-- paxos/proposer.go: the rounds of one proposer. The goroutines of `broadcast` deliver one reply per voter
-- in some order: a round is a function of the list of replies in the order in which they arrive. The
-- loops of Propose and Read over the rounds are in the modules below.
pub mod Collect
pub mod Votes
pub mod Propose
pub mod Commit
pub mod Read
use dstore.Prelude.{
  ℕ, ◌+◌, Ordering, Bool, true, false, ◌&&◌, ◌||◌, not, Option, none, some, List, [], ◌∷◌, ltb, leb,
  ◌==◌, if◌then◌else◌,
}
use dstore.Bytes.{Bytes}
use dstore.View.{View, quorum}
use dstore.Wire.{
  t_prepare, t_accept, t_promise, t_conflict, t_accepted, t_read, t_read_reply, t_err, stale_view,
  expired, Msg, empty_msg, FrameType, Code,
}
use dstore.Paxos.Ballot
use dstore.Paxos.Ballot.{Ballot, zero_ballot, is_zero, above, same, parse_or_zero}

-- The type `Row` of proposer.go: the decided, or best known, state of a register.
pub record Row : Type 0 where
  pub accepted : Ballot
  pub value : Bytes
  pub has_value : Bool

abbrev pub zero_row : Row
zero_row = record { accepted = zero_ballot; value = []; has_value = false }

-- `reply`: `none` is a transport error.
pub record Reply : Type 0 where
  pub id : ℕ
  pub msg : Option Msg

-- The errors of a round, and the errors of a change function.
pub data RoundError : Type 0 where
  stale : View → RoundError
  conflict : Ballot → RoundError
  unavailable unknown_outcome expired_error other_error no_view deadline : RoundError

pub data Round {ℓ} (A : Type ℓ) : Type ℓ where
  ok : A → Round A
  err : RoundError → Round A

abbrev pub is_stale_or_conflict : RoundError → Bool
is_stale_or_conflict (stale v) = true
is_stale_or_conflict (conflict b) = true
is_stale_or_conflict _ = false

-- stamp
unfoldable pub stamp : View → Msg → Msg
stamp v m = record m { cluster_id = v.cluster_id; incarnation = v.incarnation; epoch = v.epoch }

abbrev prepare_request : Bytes → Ballot → Msg
prepare_request reg b = record empty_msg { type = t_prepare; reg = reg; ballot = Ballot.bytes b }

unfoldable pub prepare_msg : View → Bytes → Ballot → Msg
unfolding stamp
prepare_msg v reg b = stamp v (prepare_request reg b)

abbrev accept_request : Bytes → Ballot → Bytes → Bool → ℕ → Msg
accept_request reg b value has_value not_after = record empty_msg {
  type = t_accept;
  reg = reg;
  ballot = Ballot.bytes b;
  value = value;
  has_value = has_value;
  not_after = not_after;
}

unfoldable pub accept_msg : View → Bytes → Ballot → Bytes → Bool → ℕ → Msg
unfolding stamp
accept_msg v reg b value has_value not_after =
    stamp v (accept_request reg b value has_value not_after)

-- Boolean tests on frame types and error codes.
unfoldable pub is_err : FrameType → Bool
is_err t_err = true
is_err _ = false

unfoldable pub is_conflict : FrameType → Bool
is_conflict t_conflict = true
is_conflict _ = false

unfoldable pub is_promise : FrameType → Bool
is_promise t_promise = true
is_promise _ = false

unfoldable pub is_accepted : FrameType → Bool
is_accepted t_accepted = true
is_accepted _ = false

unfoldable pub is_read_reply : FrameType → Bool
is_read_reply t_read_reply = true
is_read_reply _ = false

-- `view.Decode` is a parameter.
module _ (decode : Bytes → Option View) where
  -- The switch of `classify` on an error reply's code.
  unfoldable pub classify_code : Code → Msg → RoundError
  classify_code stale_view m = elim (decode m.view) [ none ↦ other_error | some nv ↦ stale nv ]
  classify_code expired m = expired_error
  classify_code _ m = other_error

  unfoldable pub classify_msg : View → Msg → Round Msg
  unfolding classify_code is_err is_conflict
  classify_msg v m =
      if is_err m.type
      then err (classify_code m.code m)
      else if not (m.incarnation == v.incarnation) || not (m.epoch == v.epoch)
      then err other_error
      else if is_conflict m.type
      then err (conflict (parse_or_zero m.ballot))
      else ok m

  -- classify
  unfoldable pub classify : View → Reply → Round Msg
  unfolding classify_msg
  classify v r = elim r.msg [ none ↦ err other_error | some m ↦ classify_msg v m ]

  abbrev pub reply_row : Msg → Row
  reply_row m = record {
    accepted = parse_or_zero m.accepted;
    value = m.value;
    has_value = m.has_value;
  }

  -- The row that one more promise leaves as the best.
  unfoldable pub better : Row → ℕ → Msg → Row
  better best promises m =
      if promises == 0 || above (parse_or_zero m.accepted) best.accepted then reply_row m else best

  -- The loop of `prepare`, with the best row and the number of promises so far.
  unfoldable pub collect_promises : View → Row → ℕ → List Reply → Round Row
  unfolding classify better is_promise
  collect_promises v best promises [] = err unavailable
  collect_promises v best promises (r ∷ rest) = elim (classify v r) [
    | err e ↦
        let next = collect_promises v best promises rest in
        if is_stale_or_conflict e then err e else next
    | ok m ↦
        let next = collect_promises v (better best promises m) (promises + 1) rest in
        let skip = collect_promises v best promises rest in
        if not (is_promise m.type)
        then skip
        else if leb (quorum v) (promises + 1)
        then ok (better best promises m)
        else next
  ]

  -- `prepare`, for the replies that arrive.
  unfoldable pub prepare_round : View → List Reply → Round Row
  unfolding collect_promises
  prepare_round v replies = collect_promises v zero_row 0 replies

  abbrev ends_accept : RoundError → Bool
  ends_accept expired_error = true
  ends_accept e = is_stale_or_conflict e

  -- The loop of `accept`, with the number of votes so far.
  unfoldable pub collect_votes : View → ℕ → List Reply → Round (Unit {0})
  unfolding classify is_accepted
  collect_votes v accepted [] = if ltb 0 accepted then err unknown_outcome else err unavailable
  collect_votes v accepted (r ∷ rest) = elim (classify v r) [
    | err e ↦ let next = collect_votes v accepted rest in if ends_accept e then err e else next
    | ok m ↦
        let next = collect_votes v (accepted + 1) rest in
        let skip = collect_votes v accepted rest in
        if not (is_accepted m.type)
        then skip
        else if leb (quorum v) (accepted + 1)
        then ok tt
        else next
  ]

  -- `accept`, for the replies that arrive.
  unfoldable pub accept_round : View → List Reply → Round (Unit {0})
  unfolding collect_votes
  accept_round v replies = collect_votes v 0 replies
