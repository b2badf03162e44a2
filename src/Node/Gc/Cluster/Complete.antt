-- ===== src/Node/Gc/Cluster/Complete.antt =====
-- A mark that has ended is complete.
use dstore.Prelude.{
  ℕ, ◌≡◌, refl, sym, ◌∙◌, ap, ◌⊎◌, inl, inr, Bool, true, false, ◌&&◌, List, [], ◌∷◌, ◌++◌, ◌==◌,
  ==_iff, elem, length, length-nil,
}
use dstore.View.{View, contains}
use dstore.View.Tables.{write_set}
use dstore.Node.Gc.Sweep.{pack_of}
use dstore.Node.Gc.Mark.{has_pack, was_forwarded, batch_of, batch_or_new}
use dstore.Node.Gc.Handlers.{is_idle_mark}
use dstore.Node.Gc.Cluster.Grows.{waiting}
use dstore.Node.Gc.Cluster.State.{
  Part, Cluster, brings, brings_work, ClusterStep, takes_root, posts_root, begins, processes, ends,
  sends, is_refused, arrives, reports, Fresh, ClusterRun, begin, next, Quiet, Reached, root, child,
}
use dstore.Node.Gc.Cluster.Leads.{At, OnWay, home, Seen, AllTold, Cared, Marks}
use dstore.Node.Gc.Cluster.Moves.{Carries-Marks}
use dstore.Node.Gc.Cluster.Steps.{rooted-Carries, rooted-News, posted-Carries, posted-News}
use dstore.Node.Gc.Cluster.Loop.{
  begun-Carries, begun-News, ended-Carries, ended-News, refused-Carries, refused-News,
  reported-Carries, reported-News, processed-Carries, processed-News,
}
use dstore.Node.Gc.Cluster.Sending.{sent-Carries, sent-News}
use dstore.Node.Gc.Cluster.Arriving.{arrived-Carries, arrived-News}

and-three : (a b c : Bool) → (a && b && c) ≡ true → (a ≡ true) × ((b ≡ true) × (c ≡ true))
and-three true true true h = (refl, (refl, refl))
and-three true true false h = cc
and-three true false c h = cc
and-three false b c h = cc

module _ (salt : ℕ → ℕ) (is_leaf : ℕ → Bool) (kids : ℕ → List ℕ) (placement : View)
    (acked : List ℕ) where
  Fresh-Marks :
      (part : ℕ → Part)
      → ((n : ℕ) → Fresh salt is_leaf kids placement acked (part n))
      → Marks salt is_leaf kids placement acked (record { part = part; flight = []; roots = [] })
  Fresh-Marks part f = record {
    cared = λ k h. cc;
    children =
        λ n k h. let e : elem k [] ≡ true = ap (λ x. elem k x) (sym (f n).visited_none) ∙ h in cc;
    forwarded = λ n k h.
        let e : was_forwarded (home salt is_leaf kids placement acked k) k [] ≡ true =
          ap (λ x. was_forwarded (home salt is_leaf kids placement acked k) k x)
            (sym (f n).forward_none)
          ∙ h in
        cc;
    placement_is = λ n. (f n).placement_is;
    acked_are = λ n. (f n).acked_are;
    busy = λ n. inl (f n).batch_none;
  }

  step-Marks :
      {c c' : Cluster}
      → Marks salt is_leaf kids placement acked c
      → ClusterStep salt is_leaf kids c c'
      → Marks salt is_leaf kids placement acked c'
  step-Marks {c} m (takes_root n k) =
      Carries-Marks salt is_leaf kids placement acked n _ c.flight (k ∷ c.roots) c
        (rooted-Carries salt is_leaf kids placement acked n (c.part n) c.flight c.roots k) m
        (rooted-News salt is_leaf kids placement acked n (c.part n) c.flight c.roots k)
  step-Marks {c} m (posts_root n k) =
      Carries-Marks salt is_leaf kids placement acked n _ c.flight (k ∷ c.roots) c
        (posted-Carries salt is_leaf kids placement acked n (c.part n) c.flight c.roots k) m
        (posted-News salt is_leaf kids placement acked n (c.part n) c.flight c.roots k)
  step-Marks {c} m (begins n b) =
      Carries-Marks salt is_leaf kids placement acked n _ c.flight c.roots c
        (begun-Carries salt is_leaf kids placement acked n (c.part n) c.flight c.roots b) m
        (begun-News salt is_leaf kids placement acked n (c.part n) c.flight c.roots)
  step-Marks {c} m (processes n k ks found b f) =
      Carries-Marks salt is_leaf kids placement acked n _ c.flight c.roots c
        (processed-Carries salt is_leaf kids placement acked n (c.part n) c.flight c.roots found k
          ks (m.placement_is n) (m.acked_are n) b)
        m
        (processed-News salt is_leaf kids placement acked n (c.part n) c.flight c.roots found k ks
          (m.placement_is n) (m.acked_are n) b f)
  step-Marks {c} m (ends n b) =
      Carries-Marks salt is_leaf kids placement acked n _ c.flight c.roots c
        (ended-Carries salt is_leaf kids placement acked n (c.part n) c.flight c.roots) m
        (ended-News salt is_leaf kids placement acked n (c.part n) c.flight c.roots b)
  step-Marks {c} m (sends n o) =
      Carries-Marks salt is_leaf kids placement acked n _ _ c.roots c
        (sent-Carries salt is_leaf kids placement acked n o (c.part n) c.flight) m
        (sent-News salt is_leaf kids placement acked n o (c.part n) c.flight c.roots)
  step-Marks {c} m (is_refused n) =
      Carries-Marks salt is_leaf kids placement acked n _ c.flight c.roots c
        (refused-Carries salt is_leaf kids placement acked n (c.part n) c.flight c.roots) m
        (refused-News salt is_leaf kids placement acked n (c.part n) c.flight c.roots)
  step-Marks {c} m (arrives n a keys before after e f d) =
      Carries-Marks salt is_leaf kids placement acked n _ (before ++ after) c.roots c
        (arrived-Carries salt is_leaf kids placement acked n a keys (c.part n) before after c.flight
          e f d)
        m
        (arrived-News salt is_leaf kids placement acked n a keys (c.part n) before after c.flight e
          f d c.roots)
  step-Marks {c} m (reports n frozen dirty) =
      Carries-Marks salt is_leaf kids placement acked n _ c.flight c.roots c
        (reported-Carries salt is_leaf kids placement acked n (c.part n) c.flight c.roots frozen
          dirty)
        m
        (reported-News salt is_leaf kids placement acked n (c.part n) c.flight c.roots frozen dirty)

  pub ClusterRun-Marks :
      {c : Cluster}
      → ClusterRun salt is_leaf kids placement acked c
      → Marks salt is_leaf kids placement acked c
  ClusterRun-Marks (begin part f) = Fresh-Marks part f
  ClusterRun-Marks (next r s) = step-Marks (ClusterRun-Marks r) s

  module _ {c : Cluster} (m : Marks salt is_leaf kids placement acked c)
      (q : Quiet salt is_leaf kids c) where
    idle-lists :
        (n : ℕ)
        → ((c.part n).mark.queue ≡ []) × (((c.part n).mark.busy ≡ 0) × ((c.part n).mark.out ≡ []))
    unfolding is_idle_mark
    idle-lists n =
        let ms = (c.part n).mark in
        let (a, (b, o)) =
          and-three (length ms.queue == 0) (ms.busy == 0) (length ms.out == 0) (q.idle n) in
        (length-nil ms.queue a, ((==_iff ms.busy 0).0 b, length-nil ms.out o))

    not-At : (n k : ℕ) → At (c.part n) k → ⊥
    not-At n k (inl h) =
        let e : elem k [] ≡ true = ap (λ x. elem k x) (sym (idle-lists n).0) ∙ h in cc
    not-At n k (inr h) = elim (m.busy n) [
      | inl e ↦ let e : elem k [] ≡ true = ap (λ x. elem k x) (sym e) ∙ h in cc
      | inr b ↦ b (idle-lists n).1.0
    ]

    not-waiting : (n w k : ℕ) → elem k ((waiting w (c.part n).mark).expand) ≡ true → ⊥
    unfolding batch_of batch_or_new
    not-waiting n w k h =
        let e : elem k [] ≡ true =
          ap (λ x. elem k ((batch_or_new (batch_of w x)).expand)) (sym (idle-lists n).1.1) ∙ h in
        cc

    not-OnWay : (n k : ℕ) → OnWay c n k → ⊥
    not-OnWay n k (inl a) = not-At n k a
    not-OnWay n k (inr (inl b)) =
        let e : brings_work n k [] ≡ true = ap (λ x. brings_work n k x) (sym q.flight) ∙ b in cc
    not-OnWay n k (inr (inr (x, h))) = not-waiting x n k h

    settled :
        (k : ℕ)
        → Cared salt is_leaf kids placement acked c k
        → AllTold salt is_leaf kids placement acked c k × Seen salt is_leaf kids placement acked c k
    settled k (inl (n, w)) = absurd (not-OnWay n k w)
    settled k (inr (t, inl s)) = (t, s)
    settled k (inr (t, inr w)) = absurd (not-OnWay _ k w)

    Reached-Cared :
        {k : ℕ} → Reached salt is_leaf kids c.roots k → Cared salt is_leaf kids placement acked c k
    Reached-Cared (root k h) = m.cared k h
    Reached-Cared (child k x r l h) = elim ((settled k (Reached-Cared r)).1) [
      | inl t ↦ cc
      | inr v ↦ elim (m.children (home salt is_leaf kids placement acked k) k v) [
        | inl e ↦ absurd (e (q.missing (home salt is_leaf kids placement acked k)))
        | inr f ↦ f x h
      ]
    ]

    told-marked :
        (o k : ℕ)
        → ((elem k (c.part o).mark.marked ≡ true) ⊎ (brings o k c.flight ≡ true))
          ⊎ ((x : ℕ) × (elem k ((waiting o (c.part x).mark).keys) ≡ true))
        → elem k (c.part o).mark.marked ≡ true
    unfolding batch_of batch_or_new
    told-marked o k (inl (inl h)) = h
    told-marked o k (inl (inr b)) =
        let e : brings o k [] ≡ true = ap (λ x. brings o k x) (sym q.flight) ∙ b in cc
    told-marked o k (inr (x, h)) =
        let e : elem k [] ≡ true =
          ap (λ y. elem k ((batch_or_new (batch_of o y)).keys)) (sym (idle-lists x).1.1) ∙ h in
        cc

  -- In a run of an epoch that has come to rest, where every worker is idle, no packet is on its way and
  -- nothing is missing, every object under a root is marked at each of its owners that took part and holds
  -- it among its sweepable records.
  pub ClusterRun-marked :
      (c : Cluster) (k o : ℕ)
      → ClusterRun salt is_leaf kids placement acked c
      → Quiet salt is_leaf kids c
      → Reached salt is_leaf kids c.roots k
      → elem o (write_set salt placement k) ≡ true
      → contains acked o ≡ true
      → has_pack (pack_of k (c.part o).mark.eligible) ≡ true
      → elem k (c.part o).mark.marked ≡ true
  ClusterRun-marked c k o run quiet r w a e =
      let m = ClusterRun-Marks run in
      elim ((settled m quiet k (Reached-Cared m quiet r)).0 o w a) [
        | inl i ↦ i e
        | inr (inl b) ↦ told-marked m quiet o k (inl (inr b))
        | inr (inr x) ↦ told-marked m quiet o k (inr x)
      ]
