-- ===== src/Paxos/Proposer/Read.antt =====
-- paxos/proposer.go: Read, ReadAll, Purge. A read restarts under each newer view that a voter sends, at
-- most `attempts` times before the context ends.
use dstore.Prelude.{
  ℕ, zero, suc, ◌+◌, Bool, true, false, ◌&&◌, not, Option, none, some, List, [], ◌∷◌, leb,
  if◌then◌else◌, length, count,
}
use dstore.Bytes.{Bytes}
use dstore.View.{View, quorum}
use dstore.Wire.{Msg, empty_msg, t_read, t_purge, t_ok, FrameType}
use dstore.Paxos.Ballot
use dstore.Paxos.Ballot.{Ballot, same, same→eq}
use dstore.Paxos.Proposer.{
  Row, Reply, stale, no_view, deadline, Round, ok, err, stamp, classify, reply_row, is_read_reply,
}
use dstore.Paxos.Proposer.Propose.{Network, settle}

abbrev pub read_msg : View → Bytes → Msg
read_msg v reg = stamp v (record empty_msg { type = t_read; reg = reg })

-- How the loop of Read ends: a newer view, or the rows reported.
pub data Reads : Type 0 where
  newer : View → Reads
  reported : List Row → Reads

-- Every row was accepted at the ballot of the first.
unfoldable pub agree : Row → List Row → Bool
agree first [] = true
agree first (r ∷ rs) = same r.accepted first.accepted && agree first rs

abbrev append_row : List Row → Row → List Row
append_row [] r = r ∷ []
append_row (x ∷ xs) r = x ∷ append_row xs r

module _ (decode : Bytes → Option View) (v : View) where
  unfoldable pub collect_reads : List Row → List Reply → Reads
  unfolding classify is_read_reply
  collect_reads rows [] = reported rows
  collect_reads rows (r ∷ rest) = elim (classify decode v r) [
    | err (stale nv) ↦ newer nv
    | err _ ↦ collect_reads rows rest
    | ok m ↦
        let skip = collect_reads rows rest in
        let more = collect_reads (append_row rows (reply_row decode m)) rest in
        if not (is_read_reply m.type)
        then skip
        else if leb (quorum v) (length rows + 1)
        then reported (append_row rows (reply_row decode m))
        else more
  ]

  -- The row that the fast read returns: none when it has to settle.
  unfoldable pub fast_row : List Row → Option Row
  unfolding agree
  fast_row [] = none
  fast_row (first ∷ rest) =
      if leb (quorum v) (length (first ∷ rest)) && agree first rest then some first else none

module _ (N : Network) where
  unfoldable pub read : Bytes → ℕ → N.World → N.World × Round Row
  unfolding collect_reads fast_row settle
  read reg zero w = (w, err deadline)
  read reg (suc attempts) w = elim (N.current w) [
    | none ↦ (w, err no_view)
    | some v ↦
        let answered = N.broadcast w v (read_msg v reg) in
        elim (collect_reads N.decode v [] answered.1) [
          | newer nv ↦ read reg attempts (N.adopt answered.0 nv)
          | reported rows ↦ elim (fast_row N.decode v rows) [
            | some row ↦ (answered.0, ok row)
            | none ↦ settle N reg attempts answered.0
          ]
        ]
  ]

  -- ReadAll: the rows reported, under the voters' ids, in the order of the replies.
  unfoldable pub collect_all : View → List Reply → List (ℕ × Row)
  unfolding classify is_read_reply
  collect_all v [] = []
  collect_all v (r ∷ rest) = elim (classify N.decode v r) [
    | err _ ↦ collect_all v rest
    | ok m ↦
        let others = collect_all v rest in
        if is_read_reply m.type then (r.id, reply_row N.decode m) ∷ others else others
  ]

  unfoldable pub read_all : Bytes → N.World → N.World × List (ℕ × Row)
  unfolding collect_all
  read_all reg w = elim (N.current w) [
    | none ↦ (w, [])
    | some v ↦
        let answered = N.broadcast w v (read_msg v reg) in (answered.0, collect_all v answered.1)
  ]

  unfoldable pub is_ok : FrameType → Bool
  is_ok t_ok = true
  is_ok _ = false

  unfoldable pub confirms : Reply → Bool
  unfolding is_ok
  confirms r = elim r.msg [ none ↦ false | some m ↦ is_ok m.type ]

  -- Purge: how many voters confirm.
  unfoldable pub purge : Bytes → Ballot → N.World → N.World × ℕ
  unfolding confirms
  purge reg b w = elim (N.current w) [
    | none ↦ (w, 0)
    | some v ↦
        let request = record empty_msg { type = t_purge; reg = reg; ballot = Ballot.bytes b } in
        let answered = N.broadcast w v (stamp v request) in (answered.0, count confirms answered.1)
  ]
