-- ===== src/Node/Gc/Mark.antt =====
-- node/gc.go: a worker's state in one epoch and what is done to it: keys that arrive, keys that are
-- processed and delivered to their owners, batches that leave, and the status that the coordinator asks
-- for. The mutex makes each function one step. Whether a key is of a leaf (a blob or an attribute set) is
-- the parameter `is_leaf`, and what getData with ChildKeys gives for a key is the argument `found`.
use dstore.Prelude.{
  ℕ, ◌+◌, ◌-◌, ◌%◌, ◌^◌, Bool, true, false, ◌&&◌, ◌||◌, not, Option, none, some, List, [], ◌∷◌,
  ◌++◌, ◌==◌, if◌then◌else◌, length, take, drop, elem,
}
use dstore.Bytes.{Bytes}
use dstore.View.{View, contains}
use dstore.View.Tables.{write_set, read_order}
use dstore.Node.Gc.Sweep.{pack_of}

pub record OutBatch : Type 0 where
  pub keys : List ℕ
  pub expand : List ℕ

pub record MarkState : Type 0 where
  pub epoch : ℕ
  pub nonce : Bytes
  pub count : ℕ
  pub elig_below : ℕ
  pub placement : View
  pub acked : List ℕ
  pub eligible : List (ℕ × ℕ)
  pub marked : List ℕ
  pub visited : List ℕ
  pub forward : List (ℕ × ℕ)
  pub queue : List ℕ
  pub sender : Bytes
  pub seqs : List (ℕ × ℕ)
  pub out : List (ℕ × OutBatch)
  pub sent : ℕ
  pub recv : ℕ
  pub seq_seen : List (Bytes × ℕ)
  pub missing : List ℕ
  pub frozen : Bool
  pub busy : ℕ
  pub dirty : Bool

-- The map `out`: a missing batch is an empty one, as `deliver` makes it.
abbrev pub no_batch : OutBatch
no_batch = record { keys = []; expand = [] }

unfoldable pub batch_of : ℕ → List (ℕ × OutBatch) → Option OutBatch
batch_of id [] = none
batch_of id (e ∷ es) = if e.0 == id then some (e.1) else batch_of id es

unfoldable pub batch_or_new : Option OutBatch → OutBatch
batch_or_new none = no_batch
batch_or_new (some b) = b

unfoldable pub put_batch : ℕ → OutBatch → List (ℕ × OutBatch) → List (ℕ × OutBatch)
put_batch id b [] = (id, b) ∷ []
put_batch id b (e ∷ es) = if e.0 == id then (id, b) ∷ es else e ∷ put_batch id b es

unfoldable pub drop_batch : ℕ → List (ℕ × OutBatch) → List (ℕ × OutBatch)
drop_batch id [] = []
drop_batch id (e ∷ es) = if e.0 == id then es else e ∷ drop_batch id es

-- marked[k], where k is among the sweepable records.
abbrev pub has_pack : Option ℕ → Bool
has_pack none = false
has_pack (some p) = true

unfoldable pub mark_key : MarkState → ℕ → MarkState
unfolding pack_of
mark_key ms k =
    if has_pack (pack_of k ms.eligible) && not (elem k ms.marked)
    then record ms { marked = k ∷ ms.marked }
    else ms

unfoldable pub mark_keys : MarkState → List ℕ → MarkState
unfolding mark_key
mark_keys ms [] = ms
mark_keys ms (k ∷ ks) = mark_keys (mark_key ms k) ks

-- The first acknowledged node in a ranking, the zero id where there is none.
unfoldable pub first_acked : List ℕ → List ℕ → ℕ
unfolding contains
first_acked acked [] = 0
first_acked acked (id ∷ ids) = if contains acked id then id else first_acked acked ids

unfoldable pub worker : (ℕ → ℕ) → MarkState → ℕ → ℕ
unfolding first_acked read_order
worker salt ms k = first_acked ms.acked (read_order salt ms.placement k)

abbrev pub was_forwarded : ℕ → ℕ → List (ℕ × ℕ) → Bool
was_forwarded w k [] = false
was_forwarded w k (e ∷ es) = e.0 == w && e.1 == k || was_forwarded w k es

module _ (salt : ℕ → ℕ) (is_leaf : ℕ → Bool) (self : ℕ) where
  -- What `deliver` does for one owner.
  unfoldable pub deliver_one : ℕ → ℕ → MarkState → MarkState
  unfolding contains mark_key batch_of batch_or_new put_batch
  deliver_one k o ms =
      let b = batch_or_new (batch_of o ms.out) in
      if not (contains ms.acked o)
      then ms
      else if o == self
      then mark_key ms k
      else record ms { out = put_batch o (record b { keys = b.keys ++ k ∷ [] }) ms.out }

  unfoldable pub deliver_to : ℕ → List ℕ → MarkState → MarkState
  unfolding deliver_one
  deliver_to k [] ms = ms
  deliver_to k (o ∷ os) ms = deliver_to k os (deliver_one k o ms)

  unfoldable pub deliver : ℕ → MarkState → MarkState
  unfolding deliver_to write_set
  deliver k ms = deliver_to k (write_set salt ms.placement k) ms

  -- An interior key of another worker goes to it once.
  unfoldable pub forward_to : ℕ → ℕ → MarkState → MarkState
  unfolding batch_of batch_or_new put_batch
  forward_to w k ms =
      let b = batch_or_new (batch_of w ms.out) in
      if was_forwarded w k ms.forward then ms else record ms {
        forward = (w, k) ∷ ms.forward;
        out = put_batch w (record b { expand = b.expand ++ k ∷ [] }) ms.out;
      }

  -- An interior key of this worker is expanded once.
  unfoldable pub expand_key : Option (List ℕ) → ℕ → MarkState → MarkState
  expand_key none k ms = record ms { missing = ms.missing ++ k ∷ [] }
  expand_key (some kids) k ms = record ms { queue = ms.queue ++ kids }

  unfoldable pub visit : Option (List ℕ) → ℕ → MarkState → MarkState
  unfolding expand_key
  visit found k ms =
      if elem k ms.visited then ms else expand_key found k (record ms { visited = k ∷ ms.visited })

  unfoldable pub process : Option (List ℕ) → ℕ → MarkState → MarkState
  unfolding deliver worker forward_to visit
  process found k ms =
      let ms1 = deliver k ms in
      let w = worker salt ms1 k in
      if is_leaf k then ms1 else if not (w == self) then forward_to w k ms1 else visit found k ms1

-- workerLoop takes a batch of the queue, and counts it as busy until all of it is processed.
unfoldable pub start_batch : MarkState → List ℕ × MarkState
start_batch ms =
    if length ms.queue == 0
    then ([], ms)
    else (take 256 ms.queue, record ms { queue = drop 256 ms.queue; busy = ms.busy + 1 })

unfoldable pub end_batch : MarkState → MarkState
end_batch ms = record ms { busy = ms.busy - 1 }

-- wire.MaxKeys
abbrev pub max_keys : ℕ
max_keys = 8192

-- One batch as flushOut sends it to a target.
pub record Send : Type 0 where
  pub keys : List ℕ
  pub expand : Bool
  pub seq : ℕ

abbrev seq_of : ℕ → List (ℕ × ℕ) → ℕ
seq_of id [] = 0
seq_of id (e ∷ es) = if e.0 == id then e.1 else seq_of id es

unfoldable pub counted : ℕ → MarkState → OutBatch → List ℕ → Bool → MarkState × Option Send
unfolding put_batch
counted id ms b keys expand =
    let seq = (seq_of id ms.seqs + 1) % 2 ^ 64 in
    (
      record ms {
        out = put_batch id b ms.out;
        sent = (ms.sent + 1) % 2 ^ 64;
        seqs = (id, seq) ∷ ms.seqs;
      },
      some (record { keys = keys; expand = expand; seq = seq }),
    )

unfoldable pub send_batch : ℕ → MarkState → OutBatch → MarkState × Option Send
unfolding counted drop_batch
send_batch id ms b =
    if not (length b.expand == 0)
    then counted id ms (record b { expand = drop max_keys b.expand }) (take max_keys b.expand) true
    else if not (length b.keys == 0)
    then counted id ms (record b { keys = drop max_keys b.keys }) (take max_keys b.keys) false
    else (record ms { out = drop_batch id ms.out }, none)

-- What flushOut does for a target under the mutex.
unfoldable pub send_from : ℕ → MarkState → Option OutBatch → MarkState × Option Send
unfolding send_batch
send_from id ms none = (ms, none)
send_from id ms (some b) = send_batch id ms b

unfoldable pub next_send : ℕ → MarkState → MarkState × Option Send
unfolding batch_of send_from
next_send id ms = send_from id ms (batch_of id ms.out)

-- A target that refuses a batch.
unfoldable pub send_refused : MarkState → MarkState
send_refused ms = record ms { missing = ms.missing ++ 0 ∷ [] }
