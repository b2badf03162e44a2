-- ===== src/Node/Gc/Persist.antt =====
-- A worker that answers idle has its mark on disk.
use mathlib.Core.Path.{subst}
use dstore.Prelude.{
  ℕ, ◌≡◌, ◌≢◌, refl, sym, ◌∙◌, ap, inl, inr, Bool, true, false, ◌&&◌, ◌||◌, not, Option, none, some,
  List, [], ◌==◌, ==_iff, if◌then◌else◌, length, arith, Bool-cases, length-nil,
}
use dstore.Bytes.{Bytes, beq_bytes}
use dstore.Node.Gc.Mark.{
  MarkState, OutBatch, start_batch, end_batch, next_send, send_from, send_batch, counted, batch_of,
  send_refused,
}
use dstore.Node.Gc.Handlers.{
  MarkNode, KeysMsg, StatusReply, mark_frozen, acknowledged, last_seq, is_duplicate, current_of,
  take_keys, received, handle_keys, keys_at, status_at, dropped_mark, is_idle_mark, answered,
  freeze_if, report_status, handle_status, handle_abort, queue_root,
}
use dstore.Node.Gc.Worker.{
  OnDisk, Saved, says_idle, MarkStep, MarkRun, receives, reports, aborts, queues_root, begins_batch,
  processes, ends_batch, sends, is_refused, begin, next, dirty-process,
}

-- The marked keys and the disk of a node, where it has a mark.
abbrev IsSaved : Option MarkState → Option (List ℕ) → Type 0
IsSaved none disk = Unit
IsSaved (some ms) disk = Saved disk ms

module _ (disk : Option (List ℕ)) where
  -- Nothing to do where the worker is clean, so a step of its loop finds it dirty.
  Saved-busy :
      {ms ms' : MarkState} → Saved disk ms → ms.busy ≢ 0 → ms'.dirty ≡ ms.dirty → Saved disk ms'
  Saved-busy s busy same = record { clean = λ d. absurd (busy (s.clean (sym same ∙ d)).1) }

  Saved-same :
      {ms ms' : MarkState}
      → Saved disk ms
      → ms'.dirty ≡ ms.dirty
      → ms'.queue ≡ ms.queue
      → ms'.busy ≡ ms.busy
      → ms'.marked ≡ ms.marked
      → Saved disk ms'
  Saved-same s same q b m = record {
    clean = λ d.
        let (qe, be, on) = s.clean (sym same ∙ d) in
        (
          q ∙ qe,
          b ∙ be,
          elim on [ inl e ↦ inl (e ∙ ap (λ ks. some ks) (sym m)) | inr e ↦ inr (m ∙ e) ],
        );
  }

  Saved-if :
      (b : Bool) {x y : MarkState} → Saved disk x → Saved disk y → Saved disk (if b then x else y)
  Saved-if true s t = s
  Saved-if false s t = t

  Saved-dirty : {ms : MarkState} → ms.dirty ≡ true → Saved disk ms
  Saved-dirty h = record { clean = λ d. cc }

  -- The state of a result by a test, which comes first or second.
  first-if :
      {X : Type 0} (b : Bool) (x y : MarkState × X)
      → Saved disk (x.0)
      → Saved disk (y.0)
      → Saved disk ((if b then x else y).0)
  first-if true x y s t = s
  first-if false x y s t = t

  second-if :
      {X : Type 0} (b : Bool) (x y : X × MarkState)
      → Saved disk (x.1)
      → (b ≡ false → Saved disk (y.1))
      → Saved disk ((if b then x else y).1)
  second-if true x y s t = s
  second-if false x y s t = t refl

  take_keys-Saved :
      (m : KeysMsg) (keys : Option (List ℕ)) (ms : MarkState)
      → Saved disk ms
      → Saved disk ((take_keys m keys ms).0)
  unfolding take_keys received
  take_keys-Saved m none ms s = s
  take_keys-Saved m (some ks) ms s =
      first-if ms.frozen (ms, mark_frozen) _ s
        (first-if (is_duplicate m.seq (last_seq m.sender ms.seq_seen)) (ms, acknowledged)
          (received m ks ms, acknowledged) s (Saved-dirty refl))

  freeze_if-Saved :
      (force : Bool) (ms : MarkState) → Saved disk ms → Saved disk (freeze_if force ms)
  unfolding freeze_if
  freeze_if-Saved true ms s = Saved-same s refl refl refl refl
  freeze_if-Saved false ms s = s

  start_batch-Saved : (ms : MarkState) → Saved disk ms → Saved disk ((start_batch ms).1)
  unfolding start_batch
  start_batch-Saved ms s =
      second-if (length ms.queue == 0) ([], ms) _ s
        (λ h. record {
          clean = λ d.
              let e : length ms.queue ≡ 0 = ap (λ (q : List ℕ). length q) (s.clean d).0 in
              absurd (ground (arith, e));
        })

  send_batch-Saved :
      (id : ℕ) (b : OutBatch) (ms : MarkState) → Saved disk ms → Saved disk ((send_batch id ms b).0)
  unfolding send_batch counted
  send_batch-Saved id b ms s =
      first-if (not (length b.expand == 0)) _ _ (Saved-same s refl refl refl refl) (
        first-if (not (length b.keys == 0)) _ _ (Saved-same s refl refl refl refl)
          (Saved-same s refl refl refl refl))

  send_from-Saved :
      (id : ℕ) (o : Option OutBatch) (ms : MarkState)
      → Saved disk ms
      → Saved disk ((send_from id ms o).0)
  unfolding send_from
  send_from-Saved id none ms s = s
  send_from-Saved id (some b) ms s = send_batch-Saved id b ms s

  send-Saved : (id : ℕ) (ms : MarkState) → Saved disk ms → Saved disk ((next_send id ms).0)
  unfolding next_send
  send-Saved id ms s = send_from-Saved id (batch_of id ms.out) ms s

  current_of-IsSaved :
      (epoch : ℕ) (nonce : Bytes) (o : Option MarkState)
      → IsSaved o disk
      → IsSaved (current_of epoch nonce o) disk
  unfolding current_of
  current_of-IsSaved epoch nonce none s = s
  current_of-IsSaved epoch nonce (some ms) s =
      elim (Bool-cases (not (ms.epoch == epoch) || not (beq_bytes ms.nonce nonce))) [
        | inl t ↦ rw t _
        | inr f ↦ rw f s
      ]

  dropped_mark-IsSaved :
      (epoch : ℕ) (o : Option MarkState) → IsSaved o disk → IsSaved (dropped_mark epoch o) disk
  unfolding dropped_mark
  dropped_mark-IsSaved epoch none s = s
  dropped_mark-IsSaved epoch (some ms) s = elim (Bool-cases (ms.epoch == epoch)) [
    | inl t ↦ rw t _
    | inr f ↦ rw f s
  ]

  queue_root-IsSaved :
      (epoch k : ℕ) (o : Option MarkState) → IsSaved o disk → IsSaved (queue_root epoch k o) disk
  unfolding queue_root
  queue_root-IsSaved epoch k none s = s
  queue_root-IsSaved epoch k (some ms) s = elim (Bool-cases (ms.epoch == epoch)) [
    | inl t ↦ rw t (Saved-dirty refl)
    | inr f ↦ rw f s
  ]

keys_at-IsSaved :
    (m : KeysMsg) (n : MarkNode) (o : Option MarkState)
    → IsSaved n.mark n.disk
    → IsSaved o n.disk
    → IsSaved ((keys_at m n o).0.mark) ((keys_at m n o).0.disk)
unfolding keys_at
keys_at-IsSaved m n none s t = s
keys_at-IsSaved m n (some ms) s t = take_keys-Saved n.disk m m.keys ms t

idle-parts : (ms : MarkState) → is_idle_mark ms ≡ true → (ms.queue ≡ []) × (ms.busy ≡ 0)
unfolding is_idle_mark
idle-parts ms h = (length-nil ms.queue (ground arith), (==_iff ms.busy 0).0 (ground arith))

-- What a status leaves, and what it says where it says idle.
pub record Reported (r : MarkNode × StatusReply) : Type 0 where
  pub kept : IsSaved (r.0.mark) (r.0.disk)
  pub on_disk :
      says_idle (r.1) ≡ true → (ms : MarkState) × (r.0.mark ≡ some ms) × OnDisk (r.0.disk) ms

Reported-if :
    (b : Bool) (x y : MarkNode × StatusReply)
    → (b ≡ true → Reported x)
    → (b ≡ false → Reported y)
    → Reported (if b then x else y)
Reported-if true x y s t = s refl
Reported-if false x y s t = t refl

freeze_if-OnDisk :
    (disk : Option (List ℕ)) (force : Bool) (ms : MarkState)
    → OnDisk disk ms
    → OnDisk disk (freeze_if force ms)
unfolding freeze_if
freeze_if-OnDisk disk true ms o = o
freeze_if-OnDisk disk false ms o = o

persisted-Saved :
    (ms : MarkState) → is_idle_mark ms ≡ true → Saved (some ms.marked) (record ms { dirty = false })
persisted-Saved ms h = record { clean = λ d. ((idle-parts ms h).0, (idle-parts ms h).1, inl refl) }

and-parts : (a b : Bool) → (a && b) ≡ true → (a ≡ true) × (b ≡ true)
and-parts true b h = (refl, h)
and-parts false b h = cc

not-dirty : (a b : Bool) → (a && b) ≡ false → a ≡ true → b ≡ false
not-dirty true b h k = h
not-dirty false b h k = cc

report_status-Reported :
    (written force : Bool) (n : MarkNode) (ms : MarkState)
    → Saved n.disk ms
    → Reported (report_status written force n ms)
unfolding report_status answered
report_status-Reported written force n ms s =
    Reported-if (is_idle_mark ms && ms.dirty) _ _
      (λ h.
        let idle = (and-parts (is_idle_mark ms) ms.dirty h).0 in
        let cleaned : MarkState = record ms { dirty = false } in
        Reported-if written _ _
          (λ w. record {
            kept = freeze_if-Saved (some ms.marked) force cleaned (persisted-Saved ms idle);
            on_disk = λ i. (
              freeze_if force cleaned,
              refl,
              freeze_if-OnDisk (some ms.marked) force cleaned (inl refl),
            );
          })
          (λ w. record { kept = freeze_if-Saved n.disk force ms s; on_disk = λ i. cc }))
      (λ h. record {
        kept = freeze_if-Saved n.disk force ms s;
        on_disk = λ i. (
          freeze_if force ms,
          refl,
          freeze_if-OnDisk n.disk force ms (s.clean (not-dirty (is_idle_mark ms) ms.dirty h i)).2,
        );
      })

status_at-Reported :
    (written force : Bool) (n : MarkNode) (o : Option MarkState)
    → IsSaved n.mark n.disk
    → IsSaved o n.disk
    → Reported (status_at written force n o)
unfolding status_at
status_at-Reported written force n none s t = record { kept = s; on_disk = λ i. cc }
status_at-Reported written force n (some ms) s t = report_status-Reported written force n ms t

mark_of :
    (n : MarkNode) (ms : MarkState) → n.mark ≡ some ms → IsSaved n.mark n.disk → Saved n.disk ms
mark_of n ms e s = subst (λ o. IsSaved o n.disk) e s

module _ (salt : ℕ → ℕ) (is_leaf : ℕ → Bool) (self : ℕ) where
  MarkStep-IsSaved :
      {n n' : MarkNode}
      → IsSaved n.mark n.disk
      → MarkStep salt is_leaf self n n'
      → IsSaved n'.mark n'.disk
  unfolding handle_keys handle_status handle_abort end_batch send_refused
  MarkStep-IsSaved {n} s (receives m) =
      keys_at-IsSaved m n (current_of m.epoch m.nonce n.mark) s
        (current_of-IsSaved n.disk m.epoch m.nonce n.mark s)
  MarkStep-IsSaved {n} s (reports written force epoch nonce) =
      (status_at-Reported written force n (current_of epoch nonce n.mark) s
        (current_of-IsSaved n.disk epoch nonce n.mark s)).kept
  MarkStep-IsSaved {n} s (aborts epoch) = dropped_mark-IsSaved n.disk epoch n.mark s
  MarkStep-IsSaved {n} s (queues_root epoch k) = queue_root-IsSaved n.disk epoch k n.mark s
  MarkStep-IsSaved {n} s (begins_batch ms e) = start_batch-Saved n.disk ms (mark_of n ms e s)
  MarkStep-IsSaved {n} s (processes ms found k e busy) =
      Saved-busy n.disk (mark_of n ms e s) busy (dirty-process salt is_leaf self found k ms)
  MarkStep-IsSaved {n} s (ends_batch ms e busy) = Saved-busy n.disk (mark_of n ms e s) busy refl
  MarkStep-IsSaved {n} s (sends ms id e) = send-Saved n.disk id ms (mark_of n ms e s)
  MarkStep-IsSaved {n} s (is_refused ms e) =
      Saved-same n.disk (mark_of n ms e s) refl refl refl refl

  MarkRun-IsSaved : {n : MarkNode} → MarkRun salt is_leaf self n → IsSaved n.mark n.disk
  MarkRun-IsSaved (begin ms m q b) = record { clean = λ d. (q, b, inr m) }
  MarkRun-IsSaved (next r step) = MarkStep-IsSaved (MarkRun-IsSaved r) step

  -- In every run of a worker's epoch, a status that answers idle leaves the mark on disk, unless nothing is
  -- marked.
  pub handle_status-OnDisk :
      {n : MarkNode} (written force : Bool) (epoch : ℕ) (nonce : Bytes)
      → MarkRun salt is_leaf self n
      → says_idle ((handle_status written force epoch nonce n).1) ≡ true
      → (ms : MarkState) × ((handle_status written force epoch nonce n).0.mark ≡ some ms)
        × OnDisk ((handle_status written force epoch nonce n).0.disk) ms
  unfolding handle_status
  handle_status-OnDisk {n} written force epoch nonce r h =
      (status_at-Reported written force n (current_of epoch nonce n.mark) (MarkRun-IsSaved r)
          (current_of-IsSaved n.disk epoch nonce n.mark (MarkRun-IsSaved r))).on_disk
        h
