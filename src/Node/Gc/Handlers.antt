-- ===== src/Node/Gc/Handlers.antt =====
-- node/gc.go: the handlers of a worker's mark (handleKeys, handleStatus, handleAbort), the roots that a
-- coordinator queues on its own node, and the mark on disk. `disk` holds the keys of the file that
-- persistMark writes; its writes and its rename are the argument `written`.
use dstore.Prelude.{
  ℕ, ◌+◌, ◌%◌, ◌^◌, Bool, true, false, ◌&&◌, ◌||◌, not, Option, none, some, List, [], ◌∷◌, ◌++◌,
  leb, ◌==◌, if◌then◌else◌, length,
}
use dstore.Bytes.{Bytes, beq_bytes}
use dstore.Node.Gc.Mark.{MarkState, mark_keys, worker, batch_of, batch_or_new, put_batch}

pub record MarkNode : Type 0 where
  pub mark : Option MarkState
  pub disk : Option (List ℕ)

pub data KeysReply : Type 0 where
  no_state bad_keys mark_frozen acknowledged : KeysReply

pub data StatusReply : Type 0 where
  no_mark : StatusReply
  status : (sent received : ℕ) (idle : Bool) (marked : ℕ) (missing : List ℕ) → StatusReply

-- current
unfoldable pub current_of : ℕ → Bytes → Option MarkState → Option MarkState
current_of epoch nonce none = none
current_of epoch nonce (some ms) =
    if not (ms.epoch == epoch) || not (beq_bytes ms.nonce nonce) then none else some ms

unfoldable pub last_seq : Bytes → List (Bytes × ℕ) → Option ℕ
last_seq s [] = none
last_seq s (e ∷ es) = if beq_bytes (e.0) s then some (e.1) else last_seq s es

unfoldable pub is_duplicate : ℕ → Option ℕ → Bool
is_duplicate seq none = false
is_duplicate seq (some last) = leb seq last

-- The message of a batch of keys; `keys` is none where wire.Keys32 fails.
pub record KeysMsg : Type 0 where
  pub epoch : ℕ
  pub nonce : Bytes
  pub sender : Bytes
  pub seq : ℕ
  pub keys : Option (List ℕ)
  pub expand : Bool

unfoldable pub received : KeysMsg → List ℕ → MarkState → MarkState
unfolding mark_keys
received m keys ms =
    let ms1 =
      mark_keys
        (record ms { seq_seen = (m.sender, m.seq) ∷ ms.seq_seen; recv = (ms.recv + 1) % 2 ^ 64 })
        keys in
    record ms1 { queue = if m.expand then ms1.queue ++ keys else ms1.queue; dirty = true }

unfoldable pub take_keys : KeysMsg → Option (List ℕ) → MarkState → MarkState × KeysReply
unfolding received is_duplicate last_seq
take_keys m none ms = (ms, bad_keys)
take_keys m (some keys) ms =
    if ms.frozen
    then (ms, mark_frozen)
    else if is_duplicate m.seq (last_seq m.sender ms.seq_seen)
    then (ms, acknowledged)
    else (received m keys ms, acknowledged)

unfoldable pub keys_at : KeysMsg → MarkNode → Option MarkState → MarkNode × KeysReply
unfolding take_keys
keys_at m n none = (n, no_state)
keys_at m n (some ms) =
    let done : MarkState × KeysReply = take_keys m m.keys ms in
    (record n { mark = some (done.0) }, done.1)

unfoldable pub handle_keys : KeysMsg → MarkNode → MarkNode × KeysReply
unfolding current_of keys_at
handle_keys m n = keys_at m n (current_of m.epoch m.nonce n.mark)

unfoldable pub is_idle_mark : MarkState → Bool
is_idle_mark ms = length ms.queue == 0 && ms.busy == 0 && length ms.out == 0

unfoldable pub answered : Bool → MarkState → StatusReply
answered idle ms = status ms.sent ms.recv idle (length ms.marked) ms.missing

-- The freeze that `force` asks for.
unfoldable pub freeze_if : Bool → MarkState → MarkState
freeze_if force ms = if force then record ms { frozen = true } else ms

unfoldable pub report_status : Bool → Bool → MarkNode → MarkState → MarkNode × StatusReply
unfolding is_idle_mark answered freeze_if
report_status written force n ms =
    if is_idle_mark ms && ms.dirty
    then (if written
        then (
          record {
            mark = some (freeze_if force (record ms { dirty = false }));
            disk = some ms.marked;
          },
          answered true ms,
        )
        else (record n { mark = some (freeze_if force ms) }, answered false ms))
    else (record n { mark = some (freeze_if force ms) }, answered (is_idle_mark ms) ms)

unfoldable pub status_at : Bool → Bool → MarkNode → Option MarkState → MarkNode × StatusReply
unfolding report_status
status_at written force n none = (n, no_mark)
status_at written force n (some ms) = report_status written force n ms

unfoldable pub handle_status : Bool → Bool → ℕ → Bytes → MarkNode → MarkNode × StatusReply
unfolding current_of status_at
handle_status written force epoch nonce n =
    status_at written force n (current_of epoch nonce n.mark)

unfoldable pub dropped_mark : ℕ → Option MarkState → Option MarkState
dropped_mark epoch none = none
dropped_mark epoch (some ms) = if ms.epoch == epoch then none else some ms

unfoldable pub handle_abort : ℕ → MarkNode → MarkNode
unfolding dropped_mark
handle_abort epoch n = record n { mark = dropped_mark epoch n.mark }

-- A root that the coordinator's own node works on.
unfoldable pub queue_root : ℕ → ℕ → Option MarkState → Option MarkState
queue_root epoch k none = none
queue_root epoch k (some ms) =
    if ms.epoch == epoch
    then some (record ms { queue = ms.queue ++ k ∷ []; dirty = true })
    else some ms

-- A root that another node works on leaves by the coordinator's own batches.
unfoldable pub out_root : (ℕ → ℕ) → ℕ → MarkState → MarkState
unfolding worker batch_of batch_or_new put_batch
out_root salt k ms =
    let w = worker salt ms k in
    let b = batch_or_new (batch_of w ms.out) in
    record ms { out = put_batch w (record b { expand = b.expand ++ k ∷ [] }) ms.out }
