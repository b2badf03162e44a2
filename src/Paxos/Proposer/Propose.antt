-- ===== src/Paxos/Proposer/Propose.antt =====
-- paxos/proposer.go: Propose, handleRoundError, ballotAbove and Settle. What a proposal reads of its
-- surroundings is the interface `Network`. A change function that assigns to captured variables takes
-- their value and returns the new one.
use dstore.Prelude.{
  ℕ, zero, suc, Bool, true, false, ◌&&◌, not, Option, none, some, List, [], leb, if◌then◌else◌,
}
use dstore.Bytes.{Bytes}
use dstore.View.{View}
use dstore.Wire.{Msg}
use dstore.Paxos.Ballot.{Ballot, zero_ballot, is_zero, above}
use dstore.Paxos.Proposer.{
  Row, Reply, RoundError, stale, conflict, unknown_outcome, other_error, no_view, deadline, Round,
  ok, err, prepare_msg, accept_msg, prepare_round, accept_round,
}

-- The views, the voters behind the transport, the ballot counter of meta and the clock.
pub record Network : Type 1 where
  pub World : Type 0
  pub self : ℕ
  pub decode : Bytes → Option View
  -- Views.View and Views.Adopt
  pub current : World → Option View
  pub adopt : World → View → World
  -- The replies to a message to every voter, in the order in which they arrive.
  pub broadcast : World → View → Msg → World × List Reply
  -- NextBallot and BumpBallot
  pub next_counter : World → World × Option ℕ
  pub bump : World → ℕ → Option World
  -- The wait of the backoff: `none` when the context ends in it.
  pub pause : World → Option World

-- What a change function answers: the value to commit, or its error.
pub data Change {ℓ} (E : Type ℓ) : Type ℓ where
  commit : Bytes → Bool → Change E
  reject : E → Change E

-- The error of a proposal.
pub data Failure {ℓ} (E : Type ℓ) : Type ℓ where
  in_round : RoundError → Failure E
  in_change : E → Failure E

-- Result with the error that comes with it.
pub record Outcome {ℓ} (E : Type ℓ) : Type ℓ where
  pub ballot : Ballot
  pub value : Bytes
  pub has_value : Bool
  pub error : Option (Failure E)

-- Result{} with an error.
abbrev pub failed {ℓ} : {E : Type ℓ} → Failure E → Outcome E
failed e = record { ballot = zero_ballot; value = []; has_value = false; error = some e }

module _ (N : Network) where
  -- ballotAbove, with at most `tries` rounds of its loop.
  unfoldable pub ballot_above : ℕ → N.World → Ballot → N.World × Option Ballot
  ballot_above zero w b = (w, none)
  ballot_above (suc tries) w b =
      let counted = N.next_counter w in
      elim counted.1 [
        | none ↦ (counted.0, none)
        | some c ↦
            let nb : Ballot = record { counter = c; proposer = N.self } in
            elim (above nb b) [
              | true ↦ (counted.0, some nb)
              | false ↦ elim (leb c b.counter) [
                | true ↦ elim (N.bump counted.0 b.counter) [
                  | none ↦ (counted.0, none)
                  | some w2 ↦ ballot_above tries w2 b
                ]
                | false ↦ ballot_above tries counted.0 b
              ]
            ]
      ]

  -- handleRoundError: the world and the highest ballot seen, to retry with, or the error.
  unfoldable pub handle_round_error : RoundError → N.World → Ballot → Round (N.World × Ballot)
  handle_round_error (stale nv) w last = ok (N.adopt w nv, last)
  handle_round_error (conflict b) w last = elim (N.pause w) [
    | none ↦ err deadline
    | some w' ↦ ok (w', if above b last then b else last)
  ]
  handle_round_error e w last = err e

  abbrev pub is_unknown : RoundError → Bool
  is_unknown unknown_outcome = true
  is_unknown _ = false

  module _ {E S : Type 0} (next : N.World → S → Ballot → N.World × S × Outcome E) where
    -- A retry by the loop, or the end of it.
    unfoldable pub retry : N.World → S → Round (N.World × Ballot) → N.World × S × Outcome E
    retry w s (ok again) = next again.0 s again.1
    retry w s (err e) = (w, s, failed (in_round e))

    -- What follows the accept round of a new value.
    unfoldable pub after_commit :
        Ballot → Bytes → Bool → N.World → S → Ballot → Round (Unit {0}) → N.World × S × Outcome E
    unfolding retry
    after_commit b value has_value w s last (ok u) =
        (w, s, record { ballot = b; value = value; has_value = has_value; error = none })
    after_commit b value has_value w s last (err e) =
        let unsure : Outcome E = record {
          ballot = b;
          value = value;
          has_value = has_value;
          error = some (in_round e);
        } in
        if is_unknown e then (w, s, unsure) else retry w s (handle_round_error e w last)

    -- What follows the accept round of the row found, after the change function's error `e`.
    unfoldable pub after_reject :
        Row → E → N.World → S → Ballot → Round (Unit {0}) → N.World × S × Outcome E
    unfolding retry
    after_reject cur e w s last round =
        let answer : Outcome E = record {
          ballot = cur.accepted;
          value = cur.value;
          has_value = cur.has_value;
          error = some (in_change e);
        } in
        elim round [
          | ok u ↦ (w, s, answer)
          | err ae ↦
              if is_unknown ae then (w, s, answer) else retry w s (handle_round_error ae w last)
        ]

    -- What follows the change function.
    unfoldable pub after_change :
        View → Bytes → ℕ → Ballot → Row → N.World → Ballot → S × Change E → N.World × S × Outcome E
    unfolding after_commit after_reject
    after_change v reg not_after b cur w last (s, reject e) =
        let voted = N.broadcast w v (accept_msg v reg b cur.value cur.has_value 0) in
        if is_zero cur.accepted && not cur.has_value
        then (w, s, failed (in_change e))
        else after_reject cur e voted.0 s last (accept_round N.decode v voted.1)
    after_change v reg not_after b cur w last (s, commit value has_value) =
        let voted = N.broadcast w v (accept_msg v reg b value has_value not_after) in
        after_commit b value has_value voted.0 s last (accept_round N.decode v voted.1)

    -- What follows the prepare round.
    unfoldable pub after_prepare :
        (S → Row → Ballot → S × Change E)
        → View
        → Bytes
        → ℕ
        → Ballot
        → N.World
        → S
        → Ballot
        → Round Row
        → N.World × S × Outcome E
    unfolding retry after_change
    after_prepare fn v reg not_after b w s last (ok cur) =
        after_change v reg not_after b cur w last (fn s cur b)
    after_prepare fn v reg not_after b w s last (err e) = retry w s (handle_round_error e w last)

    -- One round of the loop, from the ballot drawn on.
    unfoldable pub attempt :
        (S → Row → Ballot → S × Change E)
        → View
        → Bytes
        → ℕ
        → S
        → Ballot
        → N.World × Option Ballot
        → N.World × S × Outcome E
    unfolding after_prepare
    attempt fn v reg not_after s last (w, none) = (w, s, failed (in_round other_error))
    attempt fn v reg not_after s last (w, some b) =
        let prepared = N.broadcast w v (prepare_msg v reg b) in
        after_prepare fn v reg not_after b prepared.0 s last (prepare_round N.decode v prepared.1)

  module _ {E S : Type 0} (reg : Bytes) (fn : S → Row → Ballot → S × Change E) (not_after : ℕ) where
    -- The loop of Propose for `attempts` rounds: the context has ended when they are used up.
    unfoldable pub propose_from : ℕ → N.World → S → Ballot → N.World × S × Outcome E
    unfolding attempt ballot_above
    propose_from zero w s last = (w, s, failed (in_round deadline))
    propose_from (suc attempts) w s last =
        let next = propose_from attempts in
        elim (N.current w) [
          | none ↦ (w, s, failed (in_round no_view))
          | some v ↦ attempt next fn v reg not_after s last (ballot_above 2 w last)
        ]

    unfoldable pub propose : ℕ → N.World → S → N.World × S × Outcome E
    propose attempts w s = propose_from attempts w s zero_ballot

  -- Settle: the identity transition; the row that is decided, or the error.
  unfoldable pub identity : Unit {0} → Row → Ballot → Unit {0} × Change (Unit {0})
  identity s cur b = (s, commit cur.value cur.has_value)

  unfoldable pub settle : Bytes → ℕ → N.World → N.World × Round Row
  settle reg attempts w =
      let done = propose reg identity 0 attempts w tt in
      elim done.2.error [
        | none ↦ (
          done.0,
          ok (record {
            accepted = done.2.ballot;
            value = done.2.value;
            has_value = done.2.has_value;
          }),
        )
        | some (in_round e) ↦ (done.0, err e)
        | some (in_change u) ↦ (done.0, err other_error)
      ]
