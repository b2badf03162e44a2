-- ===== src/Node/Gc/Cluster/Steps.antt =====
-- The steps of a worker's own: roots, batches, keys that are processed, refusals and reports.
use mathlib.Core.Path.{subst}
use dstore.Prelude.{
  zero, suc, ℕ, ◌≡◌, refl, sym, ◌∙◌, ap, ◌⊎◌, inl, inr, Bool, true, List, [], ◌∷◌, ◌++◌, ==_iff,
  elem, take, drop, elem-first, elem-cons, cons-elem, elem-left,
}
use dstore.View.{View}
use dstore.Node.Gc.Mark.{OutBatch, worker, was_forwarded}
use dstore.Node.Gc.Handlers.{out_root, queue_root}
use dstore.Node.Gc.Cluster.Grows.{waiting, Grows, Grows-put, IsMarked-Grows, put-waiting, elem-last}
use dstore.Node.Gc.Cluster.State.{Packet, Part, rooted}
use dstore.Node.Gc.Cluster.Leads.{At, Gone, Carries, News}

pub elem-take :
    (k n : ℕ) (xs : List ℕ)
    → elem k xs ≡ true
    → (elem k (drop n xs) ≡ true) ⊎ (elem k (take n xs) ≡ true)
elem-take k zero xs h = inl h
elem-take k (suc n) [] h = inl h
elem-take k (suc n) (x ∷ xs) h = elim (cons-elem k x xs h) [
  | inl e ↦ inr (subst (λ i. elem k (i ∷ take n xs) ≡ true) e (elem-first k (take n xs)))
  | inr r ↦ elim (elem-take k n xs r) [ inl d ↦ inl d | inr t ↦ inr (elem-cons k x (take n xs) t) ]
]

module _ (salt : ℕ → ℕ) (is_leaf : ℕ → Bool) (kids : ℕ → List ℕ) (placement : View)
    (acked : List ℕ) where
  module _ (n : ℕ) (p p' : Part) (fl : List Packet) where
    pub Carries-Grows :
        Grows p.mark p'.mark
        → ((k : ℕ) → At p k → At p' k ⊎ Gone salt is_leaf kids placement acked n p p' k)
        → Carries salt is_leaf kids placement acked n p p' fl fl
    Carries-Grows g at = record {
      at = at;
      expand = λ w k h. inl (g.expand w k h);
      keys = λ o k h. inl (g.keys o k h);
      work = λ w k h. inl h;
      told = λ o k h. inl h;
      visited = g.visited;
      marked = λ k h. IsMarked-Grows k g h;
    }

    pub At-Grows : Grows p.mark p'.mark → p'.batch ≡ p.batch → (k : ℕ) → At p k → At p' k
    At-Grows g b k (inl h) = inl (g.queue k h)
    At-Grows g b k (inr h) = inr (ap (λ x. elem k x) b ∙ h)

    pub News-Grows :
        (roots roots' : List ℕ)
        → Grows p.mark p'.mark
        → p'.mark.visited ≡ p.mark.visited
        → p'.mark.forward ≡ p.mark.forward
        → ((k : ℕ)
            → elem k roots' ≡ true
            → (elem k roots ≡ true)
              ⊎ (At p' k ⊎ ((w : ℕ) × (elem k ((waiting w p'.mark).expand) ≡ true))))
        → p'.batch ≡ p.batch
        → News salt is_leaf kids placement acked p p' roots roots'
    News-Grows roots roots' g v f r b = record {
      new_visited = λ k h. inl (ap (λ x. elem k x) (sym v) ∙ h);
      new_forward = λ w k h. inl (ap (λ x. was_forwarded w k x) (sym f) ∙ h);
      new_root = r;
      missing = g.missing;
      placement_same = g.placement;
      acked_same = g.acked;
      busy = λ h. elim h [ inl e ↦ inl (b ∙ e) | inr e ↦ inr (λ z. e (sym g.busy ∙ z)) ];
    }

  module _ (n : ℕ) (p : Part) (fl : List Packet) (roots : List ℕ) where
    Carries-same : Grows p.mark p.mark → Carries salt is_leaf kids placement acked n p p fl fl
    Carries-same g = Carries-Grows n p p fl g (λ k h. inl h)

    -- A root that this worker takes.
    module _ (k : ℕ) where
      rooted-Grows : Grows p.mark (rooted k p).mark
      unfolding rooted queue_root
      rooted-Grows = rw ((==_iff p.mark.epoch p.mark.epoch).1 refl) (record {
        placement = refl;
        busy = refl;
        acked = refl;
        eligible = refl;
        queue = λ a h. elem-left a p.mark.queue (k ∷ []) h;
        keys = λ o a h. h;
        expand = λ o a h. h;
        marked = λ a h. h;
        visited = λ a h. h;
        missing = λ h. h;
      })

      rooted-At : At (rooted k p) k
      unfolding rooted queue_root
      rooted-At = rw ((==_iff p.mark.epoch p.mark.epoch).1 refl) (inl (elem-last k p.mark.queue))

      rooted-lists :
          ((rooted k p).mark.visited ≡ p.mark.visited)
          × ((rooted k p).mark.forward ≡ p.mark.forward)
      unfolding rooted queue_root
      rooted-lists = rw ((==_iff p.mark.epoch p.mark.epoch).1 refl) (refl, refl)

      pub rooted-Carries : Carries salt is_leaf kids placement acked n p (rooted k p) fl fl
      unfolding rooted
      rooted-Carries =
          Carries-Grows n p (rooted k p) fl rooted-Grows
            (λ a h. inl (At-Grows n p (rooted k p) fl rooted-Grows refl a h))

      pub rooted-News : News salt is_leaf kids placement acked p (rooted k p) roots (k ∷ roots)
      unfolding rooted
      rooted-News =
          News-Grows n p (rooted k p) fl roots (k ∷ roots) rooted-Grows rooted-lists.0
            rooted-lists.1
            (λ a h. elim (cons-elem a k roots h) [
              | inl e ↦ inr (inl (subst (λ i. At (rooted k p) i) (sym e) rooted-At))
              | inr r ↦ inl r
            ])
            refl

      -- A root that the coordinator sends.
      abbrev pub posted : Part
      posted = record p { mark = out_root salt k p.mark }

      posted-Grows : Grows p.mark posted.mark
      unfolding out_root
      posted-Grows =
          let w = worker salt p.mark k in
          Grows-put p.mark w _ (λ a h. h)
            (λ a h. elem-left a ((waiting w p.mark).expand) (k ∷ []) h)

      posted-waits : elem k ((waiting (worker salt p.mark k) posted.mark).expand) ≡ true
      unfolding out_root
      posted-waits =
          let w = worker salt p.mark k in
          let b : OutBatch = record (waiting w p.mark) {
            expand = (waiting w p.mark).expand ++ k ∷ [];
          } in
          ap (λ (c : OutBatch). elem k c.expand) (put-waiting w b p.mark.out)
          ∙ elem-last k ((waiting w p.mark).expand)

      pub posted-Carries : Carries salt is_leaf kids placement acked n p posted fl fl
      posted-Carries =
          Carries-Grows n p posted fl posted-Grows
            (λ a h. inl (At-Grows n p posted fl posted-Grows refl a h))

      pub posted-News : News salt is_leaf kids placement acked p posted roots (k ∷ roots)
      unfolding out_root
      posted-News =
          News-Grows n p posted fl roots (k ∷ roots) posted-Grows refl refl
            (λ a h. elim (cons-elem a k roots h) [
              | inl e ↦ inr (
                  inr (
                    worker salt p.mark k,
                    subst (λ i. elem i ((waiting (worker salt p.mark k) posted.mark).expand) ≡ true)
                        (sym e) posted-waits,
                  ))
              | inr r ↦ inl r
            ])
            refl
