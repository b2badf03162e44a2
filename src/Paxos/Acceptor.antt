-- ===== src/Paxos/Acceptor.antt =====
-- paxos/acceptor.go: one node's acceptor. A handler takes the acceptor and the message and returns the
-- acceptor after it and the reply; the mutex makes each handler one step. The Pebble database and the
-- codecs are the parameter `Disk`; the OnInstall and Alert callbacks are not modelled.
pub mod Observe
pub mod Rounds
pub mod Maintenance
pub mod Handle
use dstore.Prelude.{
  ℕ, ◌+◌, ◌*◌, ◌^◌, Ordering, Bool, true, false, ◌&&◌, ◌||◌, not, Option, none, some, List, [], ◌∷◌,
  ◌++◌, map, ltb, leb, ◌==◌, if◌then◌else◌, length,
}
use dstore.Bytes.{Bytes}
use dstore.View
use dstore.View.{View, Voter, is_voter}
use dstore.Wire.{
  FrameType, t_prepare, t_accept, t_read, t_scan, t_install, t_purge, t_marker, t_seed, t_promise,
  t_conflict, t_accepted, t_read_reply, t_scan_reply, t_installed, t_ok, t_err, Code, stale_view,
  bad_request, internal, need_view, expired, amnesiac, retired, ScanRow, Msg, empty_msg, msg_of,
  err_msg,
}
use dstore.Paxos.Ballot
use dstore.Paxos.Ballot.{
  Ballot, zero_ballot, is_zero, above, less, same, parse_ballot, parse_or_zero, ballot_size,
}
use dstore.Paxos.Disk.{
  Disk, Row, empty_row, Write, put_row, delete_row, put_floor, delete_floor, put_marker, put_view,
  put_retired, delete_retired, Read, fault, answer,
}

abbrev pub row_or_empty : Option Row → Row
row_or_empty none = empty_row
row_or_empty (some r) = r

-- `b, err := ParseBallot(..); err != nil || b.IsZero()`: a usable ballot, or none.
unfoldable pub usable_ballot : Bytes → Option Ballot
usable_ballot x = elim (parse_ballot x) [
  | none ↦ none
  | some b ↦ if is_zero b then none else some b
]

-- What a row promises; a missing row promises the purge floor if that is higher.
unfoldable pub row_promise : Ballot → Option Row → Ballot
row_promise floor (some r) = parse_or_zero r.promised
row_promise floor none = if above floor (parse_or_zero []) then floor else parse_or_zero []

unfoldable pub row_accepted : Option Row → Ballot
row_accepted o = parse_or_zero (row_or_empty o).accepted

abbrev pub conflict : Ballot → Msg
conflict b = record empty_msg { type = t_conflict; ballot = Ballot.bytes b }

module _ (D : Disk) where
  open D use {Db, read, commit, iterate, encode, decode, meta_at}

  -- `installed` is nil or a view; `marker` with `hasMarker`.
  pub record Acceptor : Type 0 where
    pub self : ℕ
    pub db : Db
    pub closed : Bool
    pub installed : Option View
    pub marker : Option ℕ
    pub retired : Bool
    pub floor : Ballot

  -- The first voter with the acceptor's id decides.
  unfoldable pub marker_disagrees : List Voter → ℕ → Option ℕ → Bool
  marker_disagrees [] id mark = false
  marker_disagrees (vo ∷ vs) id mark =
      if vo.id == id
      then elim mark [ none ↦ true | some since ↦ not (since == vo.since) ]
      else marker_disagrees vs id mark

  -- amnesiacLocked
  unfoldable pub is_amnesiac : Acceptor → Bool
  unfolding marker_disagrees
  is_amnesiac a = elim a.installed [
    | none ↦ false
    | some v ↦ marker_disagrees v.voters a.self a.marker
  ]

  -- refuseIfForgetful: the refusal, if any.
  unfoldable pub refusal : Acceptor → Option Msg
  unfolding is_amnesiac
  refusal a =
      if a.retired
      then some (err_msg retired)
      else if is_amnesiac a
      then some (err_msg amnesiac)
      else none

  -- writeRow and the reply after it: on a failed write nothing has changed.
  unfoldable pub store_row : Acceptor → Bytes → Row → Msg → Acceptor × Msg
  store_row a reg r reply = elim (commit a.db (put_row reg r ∷ [])) [
    | none ↦ (a, err_msg internal)
    | some d ↦ (record a { db = d }, reply)
  ]

  -- `prepare` from the check of the promise on, for the row that was read.
  unfoldable pub promise_row : Acceptor → Bytes → Ballot → Option Row → Acceptor × Msg
  unfolding store_row row_promise
  promise_row a reg b o =
      let promised = row_promise a.floor o in
      let r = row_or_empty o in
      if not (above b promised)
      then (a, conflict promised)
      else store_row a reg (record r { promised = Ballot.bytes b })
          (record empty_msg {
            type = t_promise;
            accepted = r.accepted;
            value = r.value;
            has_value = r.has_value;
          })

  unfoldable pub prepare : Acceptor → Msg → Acceptor × Msg
  unfolding refusal usable_ballot promise_row
  prepare a m = elim (refusal a) [
    | some r ↦ (a, r)
    | none ↦ elim (usable_ballot m.ballot) [
      | none ↦ (a, err_msg bad_request)
      | some b ↦ elim (read a.db m.reg) [
        | fault ↦ (a, err_msg internal)
        | answer o ↦ promise_row a m.reg b o
      ]
    ]
  ]

  -- `accept` from the checks of the promise and the accepted ballot on.
  unfoldable pub accept_row : Acceptor → Msg → Ballot → Option Row → Acceptor × Msg
  unfolding store_row row_promise row_accepted
  accept_row a m b o =
      let promised = row_promise a.floor o in
      let accepted = row_accepted o in
      if less b promised
      then (a, conflict promised)
      else if less b accepted
      then (a, conflict accepted)
      else store_row a m.reg
          (record {
            promised = Ballot.bytes b;
            accepted = Ballot.bytes b;
            value = m.value;
            has_value = m.has_value;
          })
          (msg_of t_accepted)

  -- `accept` after the check of `retired`; `now` is the acceptor's clock.
  unfoldable pub accept_live : ℕ → Acceptor → Msg → Acceptor × Msg
  unfolding usable_ballot accept_row
  accept_live now a m = elim (usable_ballot m.ballot) [
    | none ↦ (a, err_msg bad_request)
    | some b ↦
        if not (m.not_after == 0) && ltb m.not_after now
        then (a, err_msg expired)
        else elim (Disk.read D a.db m.reg) [
          | fault ↦ (a, err_msg internal)
          | answer o ↦ accept_row a m b o
        ]
  ]

  unfoldable pub accept : ℕ → Acceptor → Msg → Acceptor × Msg
  unfolding accept_live
  accept now a m = if a.retired then (a, err_msg retired) else accept_live now a m

  -- `read`
  unfoldable pub read_register : Acceptor → Msg → Msg
  unfolding refusal
  read_register a m = elim (refusal a) [
    | some r ↦ r
    | none ↦ elim (read a.db m.reg) [
      | fault ↦ err_msg internal
      | answer o ↦
          let r = row_or_empty o in
          record empty_msg {
            type = t_read_reply;
            accepted = r.accepted;
            promised = r.promised;
            value = r.value;
            has_value = r.has_value;
          }
    ]
  ]

  -- LocalRead; `none` is an error.
  unfoldable pub local_read : Acceptor → Bytes → Option (Ballot × Bytes × Bool)
  unfolding row_accepted
  local_read a reg = elim (read a.db reg) [
    | fault ↦ none
    | answer o ↦ some (row_accepted o, (row_or_empty o).value, (row_or_empty o).has_value)
  ]
