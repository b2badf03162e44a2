-- ===== src/Node/Gc/Worker.antt =====
-- A worker's epoch as steps: its handlers, and those of its loop, which processes keys while it is busy.
use dstore.Prelude.{
  ℕ, ◌≡◌, ◌≢◌, ◌⊎◌, refl, ◌∙◌, Bool, true, false, ◌&&◌, not, Option, none, some, List, [], ◌∷◌,
  ◌==◌, if◌then◌else◌, elem,
}
use dstore.Bytes.{Bytes}
use dstore.View.{contains}
use dstore.View.Tables.{write_set}
use dstore.Node.Gc.Sweep.{pack_of}
use dstore.Node.Gc.Mark.{
  MarkState, mark_key, deliver_one, deliver_to, deliver, worker, forward_to, expand_key, visit,
  process, start_batch, end_batch, next_send, send_refused, has_pack,
}
use dstore.Node.Gc.Handlers.{
  MarkNode, KeysMsg, StatusReply, no_mark, status, handle_keys, handle_status, handle_abort,
  queue_root,
}

-- The keys marked are those on disk, or there are none.
abbrev pub OnDisk : Option (List ℕ) → MarkState → Type 0
OnDisk disk ms = (disk ≡ some ms.marked) ⊎ (ms.marked ≡ [])

-- A worker with nothing new since its last status has nothing to do, and its mark is on disk.
pub record Saved (disk : Option (List ℕ)) (ms : MarkState) : Type 0 where
  pub clean : ms.dirty ≡ false → (ms.queue ≡ []) × (ms.busy ≡ 0) × OnDisk disk ms

abbrev pub says_idle : StatusReply → Bool
says_idle no_mark = false
says_idle (status s r idle marked missing) = idle

-- The steps of a worker: its handlers, and those of its loop, which processes keys while it is busy.
pub data MarkStep (salt : ℕ → ℕ) (is_leaf : ℕ → Bool) (self : ℕ) (n : MarkNode)
    : MarkNode → Type 0 where
  receives : (m : KeysMsg) → MarkStep salt is_leaf self n ((handle_keys m n).0)
  reports :
      (written force : Bool) (epoch : ℕ) (nonce : Bytes)
      → MarkStep salt is_leaf self n ((handle_status written force epoch nonce n).0)
  aborts : (epoch : ℕ) → MarkStep salt is_leaf self n (handle_abort epoch n)
  queues_root :
      (epoch k : ℕ) → MarkStep salt is_leaf self n (record n { mark = queue_root epoch k n.mark })
  begins_batch :
      (ms : MarkState)
      → n.mark ≡ some ms
      → MarkStep salt is_leaf self n (record n { mark = some ((start_batch ms).1) })
  processes :
      (ms : MarkState) (found : Option (List ℕ)) (k : ℕ)
      → n.mark ≡ some ms
      → ms.busy ≢ 0
      → MarkStep salt is_leaf self n
          (record n { mark = some (process salt is_leaf self found k ms) })
  ends_batch :
      (ms : MarkState)
      → n.mark ≡ some ms
      → ms.busy ≢ 0
      → MarkStep salt is_leaf self n (record n { mark = some (end_batch ms) })
  sends :
      (ms : MarkState) (id : ℕ)
      → n.mark ≡ some ms
      → MarkStep salt is_leaf self n (record n { mark = some ((next_send id ms).0) })
  is_refused :
      (ms : MarkState)
      → n.mark ≡ some ms
      → MarkStep salt is_leaf self n (record n { mark = some (send_refused ms) })

-- An epoch on a worker, from the state that handleMark makes.
pub data MarkRun (salt : ℕ → ℕ) (is_leaf : ℕ → Bool) (self : ℕ) : MarkNode → Type 0 where
  begin :
      (ms : MarkState)
      → ms.marked ≡ []
      → ms.queue ≡ []
      → ms.busy ≡ 0
      → MarkRun salt is_leaf self (record { mark = some ms; disk = none })
  next :
      {n n' : MarkNode}
      → MarkRun salt is_leaf self n
      → MarkStep salt is_leaf self n n'
      → MarkRun salt is_leaf self n'

dirty-if :
    (b : Bool) (x y : MarkState) (d : Bool)
    → x.dirty ≡ d
    → y.dirty ≡ d
    → (if b then x else y).dirty ≡ d
dirty-if true x y d h k = h
dirty-if false x y d h k = k

dirty-mark_key : (ms : MarkState) (k : ℕ) → (mark_key ms k).dirty ≡ ms.dirty
unfolding mark_key
dirty-mark_key ms k =
    dirty-if (has_pack (pack_of k ms.eligible) && not (elem k ms.marked)) _ _ ms.dirty refl refl

dirty-expand_key :
    (salt : ℕ → ℕ) (is_leaf : ℕ → Bool) (self : ℕ) (found : Option (List ℕ)) (k : ℕ)
    (ms : MarkState)
    → (expand_key salt is_leaf self found k ms).dirty ≡ ms.dirty
unfolding expand_key
dirty-expand_key salt is_leaf self none k ms = refl
dirty-expand_key salt is_leaf self (some kids) k ms = refl

module _ (salt : ℕ → ℕ) (is_leaf : ℕ → Bool) (self : ℕ) where
  dirty-deliver_one :
      (k o : ℕ) (ms : MarkState) → (deliver_one salt is_leaf self k o ms).dirty ≡ ms.dirty
  unfolding deliver_one
  dirty-deliver_one k o ms =
      dirty-if (not (contains ms.acked o)) _ _ ms.dirty refl
        (dirty-if (o == self) _ _ ms.dirty (dirty-mark_key ms k) refl)

  dirty-deliver_to :
      (k : ℕ) (os : List ℕ) (ms : MarkState)
      → (deliver_to salt is_leaf self k os ms).dirty ≡ ms.dirty
  unfolding deliver_to
  dirty-deliver_to k [] ms = refl
  dirty-deliver_to k (o ∷ os) ms =
      dirty-deliver_to k os (deliver_one salt is_leaf self k o ms) ∙ dirty-deliver_one k o ms

  dirty-visit :
      (found : Option (List ℕ)) (k : ℕ) (ms : MarkState)
      → (visit salt is_leaf self found k ms).dirty ≡ ms.dirty
  unfolding visit
  dirty-visit found k ms =
      dirty-if (elem k ms.visited) _ _ ms.dirty refl (dirty-expand_key salt is_leaf self found k _)

  dirty-forward_to :
      (w k : ℕ) (ms : MarkState) → (forward_to salt is_leaf self w k ms).dirty ≡ ms.dirty
  unfolding forward_to
  dirty-forward_to w k ms = dirty-if _ _ _ ms.dirty refl refl

  pub dirty-process :
      (found : Option (List ℕ)) (k : ℕ) (ms : MarkState)
      → (process salt is_leaf self found k ms).dirty ≡ ms.dirty
  unfolding process deliver
  dirty-process found k ms =
      let ms1 = deliver salt is_leaf self k ms in
      let same = dirty-deliver_to k (write_set salt ms.placement k) ms in
      dirty-if (is_leaf k) _ _ ms.dirty same (
        dirty-if (not (worker salt ms1 k == self)) _ _ ms.dirty
          (dirty-forward_to (worker salt ms1 k) k ms1 ∙ same) (dirty-visit found k ms1 ∙ same))
