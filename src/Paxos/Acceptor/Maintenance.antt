-- ===== src/Paxos/Acceptor/Maintenance.antt =====
-- paxos/acceptor.go: opening, installing views, the sync marker, purging tombstones, seeding, scanning
-- and the dispatch of messages.
use dstore.Prelude.{
  ℕ, ◌*◌, ◌^◌, Ordering, Bool, true, false, ◌&&◌, ◌||◌, not, Option, none, some, List, [], ◌∷◌,
  ◌++◌, map, leb, if◌then◌else◌,
}
use dstore.Bytes.{Bytes}
use dstore.View
use dstore.View.{View, is_voter}
use dstore.Wire.{t_ok, bad_request, internal, ScanRow, Msg, msg_of, err_msg}
use dstore.Paxos.Ballot
use dstore.Paxos.Ballot.{Ballot, zero_ballot, is_zero, above, same, parse_or_zero, ballot_size}
use dstore.Paxos.Disk.{
  Disk, Row, Write, put_row, delete_row, put_floor, delete_floor, put_marker, put_view, put_retired,
  delete_retired, fault, answer,
}
use dstore.Paxos.Acceptor.{Acceptor, row_or_empty, usable_ballot}

-- wire.MaxPageBytes
abbrev pub max_page_bytes : ℕ
max_page_bytes = 4 * 2 ^ 20

-- The bounds of all row keys: every register sorts below the byte 0xff.
abbrev pub all_rows_end : Bytes
all_rows_end = 255 ∷ []

-- The purge writes `b` as the floor when it is above it.
unfoldable pub raise_floor : Ballot → Ballot → Ballot
raise_floor floor b = if above b floor then b else floor

module _ (D : Disk) where
  open D use {Db, read, commit, iterate, encode, decode, meta_at}

  -- The acceptor that OpenAcceptor makes of the meta keys, with the decoded view.
  unfoldable pub opened : ℕ → Db → Option View → Acceptor D
  opened self d v = record {
    self = self;
    db = d;
    closed = false;
    installed = v;
    marker = (meta_at d).marker;
    retired = (meta_at d).retired;
    floor = elim ((meta_at d).floor) [ none ↦ zero_ballot | some b ↦ parse_or_zero b ];
  }

  -- OpenAcceptor; `none` when the stored view does not decode.
  unfoldable pub open_acceptor : ℕ → Db → Option (Acceptor D)
  unfolding opened
  open_acceptor self d = elim ((meta_at d).view) [
    | none ↦ some (opened self d none)
    | some enc ↦ elim (decode enc) [ none ↦ none | some v ↦ some (opened self d (some v)) ]
  ]

  -- SetMarker; `false` is the error.
  unfoldable pub set_marker : Acceptor D → ℕ → Acceptor D × Bool
  set_marker a since = elim (commit a.db (put_marker since ∷ delete_retired ∷ [])) [
    | none ↦ (a, false)
    | some d ↦ (record a { db = d; marker = some since; retired = false }, true)
  ]

  -- Whether the installed view is at least as new as `v`.
  unfoldable pub keeps_view : Option View → View → Bool
  keeps_view none v = false
  keeps_view (some cur) v = elim (View.compare cur v.incarnation v.epoch) [
    | Ordering.lt ↦ false
    | Ordering.gt ↦ true
    | Ordering.eq ↦ leb v.version cur.version
  ]

  -- Only an acceptor that has served as a voter retires when a view drops it.
  unfoldable pub retires : Acceptor D → View → Bool
  retires a v =
      not (is_voter v a.self) && not a.retired && elim a.marker [ none ↦ false | some s ↦ true ]

  -- The deletes of the rows that the iterator yields; none of them if it cannot be opened.
  unfoldable pub wipe : Db → List Write
  wipe d = elim (iterate d [] all_rows_end) [
    | none ↦ []
    | some rows ↦ map (λ (e : Bytes × Option Row). delete_row e.0) rows
  ]

  unfoldable pub install_writes : Acceptor D → View → Bytes → List Write
  unfolding wipe retires
  install_writes a v enc =
      put_view enc ∷ (if retires a v then (put_retired ∷ wipe a.db) ++ delete_floor ∷ [] else [])

  -- Install; `false` is the error.
  unfoldable pub install : Acceptor D → View → Acceptor D × Bool
  unfolding keeps_view retires install_writes
  install a v = if keeps_view a.installed v then (a, true) else elim (encode v) [
    | none ↦ (a, false)
    | some enc ↦ elim (commit a.db (install_writes a v enc)) [
      | none ↦ (a, false)
      | some d ↦ (
        record a {
          db = d;
          installed = some v;
          retired = if retires a v then true else a.retired;
          floor = if retires a v then zero_ballot else a.floor;
        },
        true,
      )
    ]
  ]

  -- The batch of `purge` for a row accepted exactly at `b`.
  unfoldable pub purge_writes : Ballot → Bytes → Ballot → Row → List Write
  purge_writes floor reg b r =
      if same (parse_or_zero r.promised) b
      then delete_row reg ∷ (if above b floor then put_floor (Ballot.bytes b) ∷ [] else [])
      else put_row reg (record r { accepted = []; value = []; has_value = false }) ∷ []

  unfoldable pub purge_row : Acceptor D → Bytes → Ballot → Row → Acceptor D × Msg
  unfolding purge_writes raise_floor
  purge_row a reg b r =
      if not (same (parse_or_zero r.accepted) b)
      then (a, msg_of t_ok)
      else elim (commit a.db (purge_writes a.floor reg b r)) [
        | none ↦ (a, err_msg internal)
        | some d ↦ (
          record a {
            db = d;
            floor = if same (parse_or_zero r.promised) b then raise_floor a.floor b else a.floor;
          },
          msg_of t_ok,
        )
      ]

  unfoldable pub purge : Acceptor D → Msg → Acceptor D × Msg
  unfolding usable_ballot purge_row
  purge a m = elim (usable_ballot m.ballot) [
    | none ↦ (a, err_msg bad_request)
    | some b ↦ elim (read a.db m.reg) [
      | fault ↦ (a, err_msg internal)
      | answer none ↦ (a, msg_of t_ok)
      | answer (some r) ↦ purge_row a m.reg b r
    ]
  ]

  -- The row that `seed` writes for `sr` over the current one, or none to leave it.
  unfoldable pub seeded_row : Row → ScanRow → Option Row
  seeded_row cur sr =
      let new_acc = parse_or_zero sr.accepted in
      if is_zero new_acc || not (above new_acc (parse_or_zero cur.accepted))
      then none
      else some (record {
        promised = if above new_acc (parse_or_zero cur.promised) then sr.accepted else cur.promised;
        accepted = sr.accepted;
        value = sr.value;
        has_value = sr.has_value;
      })

  -- The batch of `seed`; `none` when a read fails.
  unfoldable pub seed_writes : Db → List ScanRow → Option (List Write)
  unfolding seeded_row
  seed_writes d [] = some []
  seed_writes d (sr ∷ rest) = elim (read d sr.reg) [
    | fault ↦ none
    | answer o ↦ elim (seed_writes d rest) [
      | none ↦ none
      | some ws ↦ elim (seeded_row (row_or_empty o) sr) [
        | none ↦ some ws
        | some r ↦ some (put_row sr.reg r ∷ ws)
      ]
    ]
  ]

  -- `seed`
  unfoldable pub seed : Acceptor D → Msg → Acceptor D × Msg
  unfolding seed_writes
  seed a m = elim (seed_writes a.db m.rows) [
    | none ↦ (a, err_msg internal)
    | some ws ↦ elim (commit a.db ws) [
      | none ↦ (a, err_msg internal)
      | some d ↦ (record a { db = d }, msg_of t_ok)
    ]
  ]
