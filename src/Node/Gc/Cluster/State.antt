-- ===== src/Node/Gc/Cluster/State.antt =====
-- The workers of an epoch and their packets, as steps of Mark and Handlers. `process` gives up the mutex while
-- it fetches an object, and is one step here: what the handlers do in between adds to the lists that it adds
-- to, and the worker counts as busy all the while. A packet that is refused, or that its sender gives up,
-- stays among those on their way.
use dstore.Prelude.{
  ℕ, ◌≡◌, ◌⊎◌, Bool, true, false, ◌&&◌, ◌||◌, Option, none, some, List, [], ◌∷◌, ◌++◌, ◌==◌,
  if◌then◌else◌, elem,
}
use dstore.View.{View}
use dstore.Node.Gc.Mark.{MarkState, Send, process, start_batch, end_batch, next_send, send_refused}
use dstore.Node.Gc.Handlers.{
  KeysMsg, last_seq, is_duplicate, take_keys, out_root, queue_root, is_idle_mark,
}

-- A batch of keys that has left a worker.
pub record Packet : Type 0 where
  pub to : ℕ
  pub keys : List ℕ
  pub expand : Bool

-- A worker's mark, with the batch that its loop processes. The coordinator's own sender is one more.
pub record Part : Type 0 where
  pub mark : MarkState
  pub batch : List ℕ

pub record Cluster : Type 0 where
  pub part : ℕ → Part
  pub flight : List Packet
  pub roots : List ℕ

abbrev pub put_part : ℕ → Part → Cluster → Cluster
put_part n p c = record c { part = λ m. if m == n then p else c.part m }

unfoldable pub with_packet : ℕ → Option Send → List Packet → List Packet
with_packet id none ps = ps
with_packet id (some s) ps = record { to = id; keys = s.keys; expand = s.expand } ∷ ps

-- Some packet brings the key to the node.
abbrev pub brings : ℕ → ℕ → List Packet → Bool
brings o k [] = false
brings o k (p ∷ ps) = p.to == o && elem k p.keys || brings o k ps

-- Some packet brings the key to the node to be processed.
abbrev pub brings_work : ℕ → ℕ → List Packet → Bool
brings_work o k [] = false
brings_work o k (p ∷ ps) = p.to == o && p.expand && elem k p.keys || brings_work o k ps

abbrev mark_or : MarkState → Option MarkState → MarkState
mark_or ms none = ms
mark_or ms (some ms') = ms'

-- A worker that the coordinator's own root reaches in the epoch.
unfoldable pub rooted : ℕ → Part → Part
unfolding queue_root
rooted k p = record p { mark = mark_or p.mark (queue_root p.mark.epoch k (some p.mark)) }

module _ (salt : ℕ → ℕ) (is_leaf : ℕ → Bool) (kids : ℕ → List ℕ) where
  pub data ClusterStep (c : Cluster) : Cluster → Type 0 where
    takes_root :
        (n k : ℕ)
        → ClusterStep c (put_part n (rooted k (c.part n)) (record c { roots = k ∷ c.roots }))
    posts_root :
        (n k : ℕ)
        → ClusterStep c (
            put_part n
              (record (c.part n) { mark = out_root salt k (c.part n).mark })
              (record c { roots = k ∷ c.roots }))
    begins :
        (n : ℕ)
        → (c.part n).batch ≡ []
        → ClusterStep c (
            put_part n
              (record {
                mark = (start_batch (c.part n).mark).1;
                batch = (start_batch (c.part n).mark).0;
              })
              c)
    processes :
        (n k : ℕ) (ks : List ℕ) (found : Option (List ℕ))
        → (c.part n).batch ≡ k ∷ ks
        → (found ≡ none) ⊎ (found ≡ some (kids k))
        → ClusterStep c (
            put_part n
              (record { mark = process salt is_leaf n found k (c.part n).mark; batch = ks })
              c)
    ends :
        (n : ℕ)
        → (c.part n).batch ≡ []
        → ClusterStep c (put_part n (record (c.part n) { mark = end_batch (c.part n).mark }) c)
    sends :
        (n o : ℕ)
        → ClusterStep c (
            put_part n
              (record (c.part n) { mark = (next_send o (c.part n).mark).0 })
              (record c { flight = with_packet o (next_send o (c.part n).mark).1 c.flight }))
    is_refused :
        (n : ℕ)
        → ClusterStep c (put_part n (record (c.part n) { mark = send_refused (c.part n).mark }) c)
    arrives :
        (n : ℕ) (m : KeysMsg) (keys : List ℕ) (before after : List Packet)
        → c.flight ≡ before ++ record { to = n; keys = keys; expand = m.expand } ∷ after
        → (c.part n).mark.frozen ≡ false
        → is_duplicate m.seq (last_seq m.sender (c.part n).mark.seq_seen) ≡ false
        → ClusterStep c (
            put_part n
              (record (c.part n) { mark = (take_keys m (some keys) (c.part n).mark).0 })
              (record c { flight = before ++ after }))
    reports :
        (n : ℕ) (frozen dirty : Bool)
        → ClusterStep c (
            put_part n
              (record (c.part n) {
                mark = record (c.part n).mark { frozen = frozen; dirty = dirty };
              })
              c)

  -- An epoch from its start: the workers have the placement and the acknowledged nodes in common, and have
  -- done nothing.
  module _ (placement : View) (acked : List ℕ) where
    pub record Fresh (p : Part) : Type 0 where
      pub placement_is : p.mark.placement ≡ placement
      pub acked_are : p.mark.acked ≡ acked
      pub visited_none : p.mark.visited ≡ []
      pub forward_none : p.mark.forward ≡ []
      pub batch_none : p.batch ≡ []

    pub data ClusterRun : Cluster → Type 0 where
      begin :
          (part : ℕ → Part)
          → ((n : ℕ) → Fresh (part n))
          → ClusterRun (record { part = part; flight = []; roots = [] })
      next : {c c' : Cluster} → ClusterRun c → ClusterStep c c' → ClusterRun c'

  -- Nothing is left to do, and nothing is missing.
  pub record Quiet (c : Cluster) : Type 0 where
    pub idle : (n : ℕ) → is_idle_mark (c.part n).mark ≡ true
    pub flight : c.flight ≡ []
    pub missing : (n : ℕ) → (c.part n).mark.missing ≡ []

  -- The objects under the roots.
  pub data Reached (roots : List ℕ) : ℕ → Type 0 where
    root : (k : ℕ) → elem k roots ≡ true → Reached roots k
    child :
        (k c : ℕ) → Reached roots k → is_leaf k ≡ false → elem c (kids k) ≡ true → Reached roots c
