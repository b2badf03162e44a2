-- ===== src/Paxos/Acceptor/Handle.antt =====
-- paxos/acceptor.go: scanning rows by pages, and the dispatch of messages with the epoch gate.
use dstore.Prelude.{
  ℕ, ◌+◌, ◌*◌, Ordering, Bool, true, false, ◌||◌, Option, none, some, List, [], ◌∷◌, ◌++◌, ltb, leb,
  ◌==◌, if◌then◌else◌, length,
}
use dstore.Bytes.{Bytes}
use dstore.View
use dstore.View.{View}
use dstore.Wire.{
  FrameType, t_prepare, t_accept, t_read, t_scan, t_install, t_purge, t_marker, t_seed,
  t_scan_reply, t_installed, t_ok, t_err, stale_view, bad_request, internal, need_view, ScanRow,
  Msg, empty_msg, msg_of, err_msg,
}
use dstore.Paxos.Ballot.{ballot_size}
use dstore.Paxos.Disk.{Disk, Row}
use dstore.Paxos.Acceptor.{Acceptor, refusal, prepare, accept, read_register}
use dstore.Paxos.Acceptor.Maintenance.{
  all_rows_end, max_page_bytes, install, set_marker, seed, purge,
}

-- The bounds of a scan.
unfoldable pub scan_limit : ℕ → ℕ
scan_limit limit = if limit == 0 || ltb 100000 limit then 100000 else limit

unfoldable pub scan_lower : Bytes → Bytes → Bytes
scan_lower prefix after = if ltb 0 (length after) then after ++ 0 ∷ [] else prefix

unfoldable pub scan_upper : Bytes → Bytes
scan_upper prefix =
    if length prefix == 0 then all_rows_end else prefix ++ 255 ∷ 255 ∷ 255 ∷ 255 ∷ []

abbrev pub scan_row : Bytes → Row → ScanRow
scan_row reg r = record {
  reg = reg;
  promised = r.promised;
  accepted = r.accepted;
  value = r.value;
  has_value = r.has_value;
}

-- The loop of `scan` over the iterator, with the rows so far and their size: the page, and whether more
-- rows are left. A row that does not decode is passed over.
unfoldable pub scan_page : ℕ → ℕ → List (Bytes × Option Row) → List ScanRow → List ScanRow × Bool
scan_page limit size [] page = (page, false)
scan_page limit size ((reg, none) ∷ rest) page =
    let next = scan_page limit size rest page in
    if leb limit (length page) || leb max_page_bytes size then (page, true) else next
scan_page limit size ((reg, some r) ∷ rest) page =
    let next =
      scan_page limit (size + (length reg + length r.value + 2 * ballot_size)) rest
        (page ++ scan_row reg r ∷ []) in
    if leb limit (length page) || leb max_page_bytes size then (page, true) else next

-- The register of the last row, or nil.
unfoldable pub last_reg : List ScanRow → Bytes
last_reg [] = []
last_reg (r ∷ []) = r.reg
last_reg (r ∷ s ∷ rest) = last_reg (s ∷ rest)

-- The rows of AllRows.
unfoldable pub decoded_rows : List (Bytes × Option Row) → List ScanRow
decoded_rows [] = []
decoded_rows ((reg, none) ∷ rest) = decoded_rows rest
decoded_rows ((reg, some r) ∷ rest) = scan_row reg r ∷ decoded_rows rest

module _ (D : Disk) where
  open D use {iterate, encode, decode}

  -- `scan`
  unfoldable pub scan : Acceptor D → Msg → Msg
  unfolding refusal scan_page scan_limit scan_lower scan_upper last_reg
  scan a m = elim (refusal D a) [
    | some r ↦ r
    | none ↦ elim (iterate a.db (scan_lower m.prefix m.after) (scan_upper m.prefix)) [
      | none ↦ err_msg internal
      | some rows ↦
          let page = scan_page (scan_limit m.limit) 0 rows [] in
          record empty_msg {
            type = t_scan_reply;
            rows = page.0;
            more = page.1;
            next = last_reg page.0;
          }
    ]
  ]

  -- AllRows; `none` is an error.
  unfoldable pub all_rows : Acceptor D → Option (List ScanRow)
  unfolding decoded_rows
  all_rows a = elim (iterate a.db [] all_rows_end) [
    | none ↦ none
    | some rows ↦ some (decoded_rows rows)
  ]

  -- The stale-view reply carries the installed view.
  unfoldable pub stale_reply : View → Msg
  stale_reply v = record empty_msg {
    type = t_err;
    code = stale_view;
    view = elim (encode v) [ none ↦ [] | some enc ↦ enc ];
  }

  -- The second switch of `handle`: messages at the acceptor's epoch.
  unfoldable pub serve : FrameType → ℕ → Acceptor D → Msg → Acceptor D × Msg
  serve t_prepare now a m = prepare D a m
  serve t_accept now a m = accept D now a m
  serve t_read now a m = (a, read_register D a m)
  serve t_scan now a m = (a, scan a m)
  serve _ now a m = (a, err_msg bad_request)

  -- The epoch gate of `handle`.
  unfoldable pub gate : ℕ → Acceptor D → Msg → Acceptor D × Msg
  unfolding serve stale_reply
  gate now a m = elim a.installed [
    | none ↦ (a, err_msg need_view)
    | some inst ↦ elim (View.compare inst m.incarnation m.epoch) [
      | Ordering.gt ↦ (a, stale_reply inst)
      | Ordering.lt ↦ (a, err_msg need_view)
      | Ordering.eq ↦ serve m.type now a m
    ]
  ]

  abbrev reply_if : Acceptor D × Bool → Msg → Acceptor D × Msg
  reply_if (a, true) reply = (a, reply)
  reply_if (a, false) reply = (a, err_msg internal)

  -- The first switch of `handle`; `view.Decode` failing is a bad request.
  unfoldable pub dispatch : FrameType → ℕ → Acceptor D → Msg → Acceptor D × Msg
  unfolding gate
  dispatch t_install now a m = elim (decode m.view) [
    | none ↦ (a, err_msg bad_request)
    | some v ↦ reply_if (install D a v) (msg_of t_installed)
  ]
  dispatch t_marker now a m = reply_if (set_marker D a m.since) (msg_of t_ok)
  dispatch t_seed now a m = seed D a m
  dispatch t_purge now a m = purge D a m
  dispatch _ now a m = gate now a m

  -- The (incarnation, epoch) of the installed view on every reply.
  unfoldable pub tag : Acceptor D → Msg → Msg
  tag a reply = elim a.installed [
    | none ↦ reply
    | some v ↦ record reply { incarnation = v.incarnation; epoch = v.epoch }
  ]

  -- Handle
  unfoldable pub handle : ℕ → Acceptor D → Msg → Acceptor D × Msg
  unfolding dispatch tag
  handle now a m =
      if a.closed
      then (a, err_msg internal)
      else let (a', reply) = dispatch m.type now a m in (a', tag a' reply)

  -- Close
  unfoldable pub close : Acceptor D → Acceptor D
  close a = record a { closed = true }
