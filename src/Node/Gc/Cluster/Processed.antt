-- ===== src/Node/Gc/Cluster/Processed.antt =====
-- Processing a key: it is delivered, and then expanded or forwarded.
use mathlib.Core.Path.{subst}
use dstore.Prelude.{
  ℕ, ◌≡◌, ◌≢◌, sym, ◌∙◌, ap, ◌⊎◌, inl, inr, Bool, true, false, not, Option, List, ◌==◌, ==_iff,
  if◌then◌else◌, elem, arith,
}
use dstore.View.Tables.{write_set, read_order}
use dstore.Node.Gc.Mark.{
  MarkState, deliver_to, deliver, worker, first_acked, was_forwarded, forward_to, visit, process,
}
use dstore.Node.Gc.Cluster.Grows.{waiting, Grows, deliver_to-Grows}
use dstore.Node.Gc.Cluster.Delivered.{
  Delivered, Delivered-Grows, Leaves, deliver_to-Leaves, deliver_to-Delivered,
}
use dstore.Node.Gc.Cluster.Process.{
  Adds, Adds-same, Adds-after, if_case, forward_to-Adds, visit-Adds,
}

module _ (salt : ℕ → ℕ) (is_leaf : ℕ → Bool) (self : ℕ) where
  -- A worker is chosen by the placement and the acknowledged nodes alone.
  pub worker-same : {a b : MarkState} (k : ℕ) → Grows a b → worker salt a k ≡ worker salt b k
  unfolding worker
  worker-same {a} {b} k g =
      sym (ap (λ x. first_acked x (read_order salt a.placement k)) g.acked)
      ∙ sym (ap (λ p. first_acked b.acked (read_order salt p k)) g.placement)

  -- What processing a key does.
  pub record Processed (found : Option (List ℕ)) (k : ℕ) (ms ms' : MarkState) : Type 0 where
    pub adds : Adds k found ms ms'
    pub delivered : (o : ℕ) → elem o (write_set salt ms.placement k) ≡ true → Delivered self ms' k o
    pub handled :
        (is_leaf k ≡ true)
        ⊎ ((worker salt ms k ≡ self) × (elem k ms'.visited ≡ true))
        ⊎ ((worker salt ms k ≢ self)
            × ((elem k ((waiting (worker salt ms k) ms').expand) ≡ true)
                ⊎ (was_forwarded (worker salt ms k) k ms.forward ≡ true)))

  -- What follows the delivery.
  module _ (found : Option (List ℕ)) (k : ℕ) (ms ms1 : MarkState) (g : Grows ms ms1)
      (l : Leaves ms ms1)
      (d : (o : ℕ) → elem o (write_set salt ms.placement k) ≡ true → Delivered self ms1 k o) where
    Adds-Delivered :
        {ms' : MarkState}
        → Adds k found ms1 ms'
        → (o : ℕ) → elem o (write_set salt ms.placement k) ≡ true
        → Delivered self ms' k o
    Adds-Delivered a o h = Delivered-Grows self k o a.grows (d o h)

    leaf-Processed : is_leaf k ≡ true → Processed found k ms ms1
    leaf-Processed t =
        let same = Adds-same k found ms1 in
        record { adds = Adds-after g l same; delivered = Adds-Delivered same; handled = inl t }

    forward-Processed :
        (worker salt ms k == self) ≡ false
        → Processed found k ms (forward_to salt is_leaf self (worker salt ms k) k ms1)
    forward-Processed f =
        let w = worker salt ms k in
        let (a, e) = forward_to-Adds salt is_leaf self k ms1 found w in
        record {
          adds = Adds-after g l a;
          delivered = Adds-Delivered a;
          handled = inr (
              inr (
                (λ i. let u : (w == self) ≡ true = (==_iff w self).1 i in cc),
                elim e [
                  | inl x ↦ inl x
                  | inr x ↦ inr (subst (λ f. was_forwarded w k f ≡ true) l.forward x)
                ],
              ));
        }

    visit-Processed :
        {ms' : MarkState}
        → (worker salt ms k == self) ≡ true
        → Adds k found ms1 ms' × (elem k ms'.visited ≡ true)
        → Processed found k ms ms'
    visit-Processed t (a, v) = record {
      adds = Adds-after g l a;
      delivered = Adds-Delivered a;
      handled = inr (inl ((==_iff (worker salt ms k) self).0 t, v));
    }

  after-Processed :
      (found : Option (List ℕ)) (k : ℕ) (ms ms1 : MarkState) (w : ℕ) (g : Grows ms ms1)
      (l : Leaves ms ms1)
      (d : (o : ℕ) → elem o (write_set salt ms.placement k) ≡ true → Delivered self ms1 k o)
      → worker salt ms k ≡ w
      → Processed found k ms (
          if is_leaf k
          then ms1
          else if not (w == self)
          then forward_to salt is_leaf self w k ms1
          else visit salt is_leaf self found k ms1)
  after-Processed found k ms ms1 w g l d e =
      subst
        (λ v. Processed found k ms (
          if is_leaf k
          then ms1
          else if not (v == self)
          then forward_to salt is_leaf self v k ms1
          else visit salt is_leaf self found k ms1))
        e
        (if_case (λ m. Processed found k ms m) (is_leaf k) ms1 _
          (λ t. leaf-Processed found k ms ms1 g l d t)
          (λ _.
            if_case (λ m. Processed found k ms m) (not (worker salt ms k == self)) _ _
              (λ t. forward-Processed found k ms ms1 g l d (ground arith))
              (λ f.
                visit-Processed found k ms ms1 g l d (ground arith)
                  (visit-Adds salt is_leaf self k ms1 found))))

  pub process-Processed :
      (found : Option (List ℕ)) (k : ℕ) (ms : MarkState)
      → Processed found k ms (process salt is_leaf self found k ms)
  unfolding process deliver
  process-Processed found k ms =
      let os = write_set salt ms.placement k in
      let g = deliver_to-Grows salt is_leaf self k os ms in
      after-Processed found k ms (deliver_to salt is_leaf self k os ms) _ g
        (deliver_to-Leaves salt is_leaf self k os ms)
        (λ o h. deliver_to-Delivered salt is_leaf self k o os ms h) (worker-same k g)
