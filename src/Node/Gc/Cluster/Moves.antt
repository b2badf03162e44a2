-- ===== src/Node/Gc/Cluster/Moves.antt =====
-- From one node's step to the cluster: no key that waits is lost.
use mathlib.Core.Path.{subst}
use dstore.Prelude.{
  ℕ, ◌≡◌, ◌≢◌, refl, sym, ◌∙◌, ◌⊎◌, inl, inr, Bool, true, false, List, [], ◌==◌, ==_iff,
  if◌then◌else◌, elem, Bool-cases,
}
use dstore.View.{View}
use dstore.Node.Gc.Mark.{was_forwarded}
use dstore.Node.Gc.Cluster.Grows.{waiting, IsMarked}
use dstore.Node.Gc.Cluster.State.{Packet, Part, Cluster, put_part}
use dstore.Node.Gc.Cluster.Leads.{
  At, OnWay, Told, home, Seen, Looked, Handled, Cared, Leads, Gone, Carries, News, Leads-Cared,
  Leads-Looked, Marks,
}

pub part_case :
    (P : Part → Type 0) (b : Bool) (x y : Part)
    → (b ≡ true → P x)
    → (b ≡ false → P y)
    → P (if b then x else y)
part_case P true x y f g = f refl
part_case P false x y f g = g refl

module _ (salt : ℕ → ℕ) (is_leaf : ℕ → Bool) (kids : ℕ → List ℕ) (placement : View)
    (acked : List ℕ) where
  module _ (n : ℕ) (p : Part) (fl : List Packet) (roots : List ℕ) (c : Cluster)
      (l : Carries salt is_leaf kids placement acked n (c.part n) p c.flight fl) where
    abbrev after : Cluster
    after = put_part n p (record c { flight = fl; roots = roots })

    here : (P : Part → Type 0) → P p → P (after.part n)
    here P h =
        part_case P (n == n) p (c.part n) (λ _. h)
          (λ f. let u : (n == n) ≡ true = (==_iff n n).1 refl in cc)

    there : (P : Part → Type 0) (m : ℕ) → (m == n) ≡ false → P (c.part m) → P (after.part m)
    there P m f h = part_case P (m == n) p (c.part m) (λ t. cc) (λ _. h)

    -- A fact on node `m` that becomes one of the new state.
    pass : (P : Part → Type 0) (m : ℕ) → (P (c.part n) → P p) → P (c.part m) → P (after.part m)
    pass P m f h =
        part_case P (m == n) p (c.part m) (λ t. f (subst (λ i. P (c.part i)) ((==_iff m n).0 t) h))
          (λ _. h)

    At-OnWay : (m k : ℕ) → m ≡ n → At p k → OnWay after m k
    At-OnWay m k e h = inl (subst (λ i. At (after.part i) k) (sym e) (here (λ q. At q k) h))

    expand-OnWay : (m k : ℕ) → elem k ((waiting m p.mark).expand) ≡ true → OnWay after m k
    expand-OnWay m k h = inr (inr (n, here (λ q. elem k ((waiting m q.mark).expand) ≡ true) h))

    waits-OnWay : (x m k : ℕ) → elem k ((waiting m (c.part x).mark).expand) ≡ true → OnWay after m k
    waits-OnWay x m k h = elim (Bool-cases (x == n)) [
      | inl t ↦
          elim (l.expand m k (
            subst (λ i. elem k ((waiting m (c.part i).mark).expand) ≡ true) ((==_iff x n).0 t) h)) [
              | inl w ↦ expand-OnWay m k w
              | inr b ↦ inr (inl b)
            ]
      | inr f ↦ inr (inr (x, there (λ q. elem k ((waiting m q.mark).expand) ≡ true) x f h))
    ]

    moves_way :
        (m k : ℕ)
        → OnWay c m k
        → OnWay after m k ⊎ ((m ≡ n) × Gone salt is_leaf kids placement acked n (c.part n) p k)
    moves_way m k (inl h) = elim (Bool-cases (m == n)) [
      | inl t ↦
          let e : m ≡ n = (==_iff m n).0 t in
          elim (l.at k (subst (λ i. At (c.part i) k) e h)) [
            | inl a ↦ inl (At-OnWay m k e a)
            | inr g ↦ inr (e, g)
          ]
      | inr f ↦ inl (inl (there (λ q. At q k) m f h))
    ]
    moves_way m k (inr (inl h)) = elim (l.work m k h) [
      | inl b ↦ inl (inr (inl b))
      | inr (e, a) ↦ inl (At-OnWay m k e a)
    ]
    moves_way m k (inr (inr (x, h))) = inl (waits-OnWay x m k h)

    keys-Told : (o k : ℕ) → elem k ((waiting o p.mark).keys) ≡ true → Told after o k
    keys-Told o k h = inr (inr (n, here (λ q. elem k ((waiting o q.mark).keys) ≡ true) h))

    marked-Told : (o k : ℕ) → o ≡ n → IsMarked p.mark k → Told after o k
    marked-Told o k e h =
        inl (subst (λ i. IsMarked (after.part i).mark k) (sym e) (here (λ q. IsMarked q.mark k) h))

    moves-Told : (o k : ℕ) → Told c o k → Told after o k
    moves-Told o k (inl h) = inl (pass (λ q. IsMarked q.mark k) o (l.marked k) h)
    moves-Told o k (inr (inl h)) = elim (l.told o k h) [
      | inl b ↦ inr (inl b)
      | inr (e, m) ↦ marked-Told o k e m
    ]
    moves-Told o k (inr (inr (x, h))) = elim (Bool-cases (x == n)) [
      | inl t ↦
          elim (l.keys o k
            (subst (λ i. elem k ((waiting o (c.part i).mark).keys) ≡ true) ((==_iff x n).0 t) h)) [
              | inl w ↦ keys-Told o k w
              | inr b ↦ inr (inl b)
            ]
      | inr f ↦ inr (inr (x, there (λ q. elem k ((waiting o q.mark).keys) ≡ true) x f h))
    ]

    -- What was forwarded is looked at: the invariant that a step of process needs.
    module _
        (forwarded : (k : ℕ)
          → was_forwarded (home salt is_leaf kids placement acked k) k (c.part n).mark.forward
            ≡ true
          → Looked salt is_leaf kids placement acked c k) where
      moves-Looked :
          (k : ℕ)
          → home salt is_leaf kids placement acked k ≢ n
          → Looked salt is_leaf kids placement acked c k
          → Looked salt is_leaf kids placement acked after k
      moves-Looked k a (inl (inl s)) = inl (inl s)
      moves-Looked k a (inl (inr s)) = inl (
          inr (
            pass (λ q. elem k q.mark.visited ≡ true) (home salt is_leaf kids placement acked k)
              (l.visited k) s))
      moves-Looked k a (inr h) = elim (moves_way (home salt is_leaf kids placement acked k) k h) [
        | inl w ↦ inr w
        | inr (e, _) ↦ absurd (a e)
      ]

      Gone-Looked :
          (k : ℕ)
          → Gone salt is_leaf kids placement acked n (c.part n) p k
          → Looked salt is_leaf kids placement acked after k
            × (n ≡ home salt is_leaf kids placement acked k
                → Seen salt is_leaf kids placement acked after k)
      Gone-Looked k g = elim g.looked [
        | inl t ↦ (inl (inl t), λ _. inl t)
        | inr (inl (e, v)) ↦
            let s : Seen salt is_leaf kids placement acked after k = inr (
              subst (λ i. elem k (after.part i).mark.visited ≡ true) (sym e)
                (here (λ q. elem k q.mark.visited ≡ true) v)) in
            (inl s, λ _. s)
        | inr (inr (a, inl e)) ↦ (
          inr (expand-OnWay (home salt is_leaf kids placement acked k) k e),
          λ i. absurd (a (sym i)),
        )
        | inr (inr (a, inr f)) ↦ (moves-Looked k a (forwarded k f), λ i. absurd (a (sym i)))
      ]

      Gone-Handled :
          (k : ℕ)
          → Gone salt is_leaf kids placement acked n (c.part n) p k
          → Handled salt is_leaf kids placement acked after n k
      Gone-Handled k g =
          let (looked, seen) = Gone-Looked k g in
          record {
            told = λ o i a. elim (g.told o i a) [
              | inl (e, m) ↦ marked-Told o k e m
              | inr w ↦ keys-Told o k w
            ];
            looked = looked;
            seen = seen;
          }

      pub Carries-Leads : Leads salt is_leaf kids placement acked c after
      Carries-Leads = record {
        way = λ m k h. elim (moves_way m k h) [
          | inl w ↦ inl w
          | inr (e, g) ↦ inr (
              subst (λ i. Handled salt is_leaf kids placement acked after i k) (sym e)
                (Gone-Handled k g))
        ];
        told = moves-Told;
        visited = λ m k h. pass (λ q. elem k q.mark.visited ≡ true) m (l.visited k) h;
      }

    module _ (i : Marks salt is_leaf kids placement acked c)
        (new : News salt is_leaf kids placement acked (c.part n) p c.roots roots) where
      leads : Leads salt is_leaf kids placement acked c after
      leads = Carries-Leads (λ k h. i.forwarded n k h)

      new-Cared :
          (k : ℕ)
          → At p k ⊎ ((w : ℕ) × (elem k ((waiting w p.mark).expand) ≡ true))
          → Cared salt is_leaf kids placement acked after k
      new-Cared k (inl a) = inl (n, At-OnWay n k refl a)
      new-Cared k (inr (w, e)) = inl (w, expand-OnWay w k e)

      stays-Cared :
          (k : ℕ)
          → Cared salt is_leaf kids placement acked c k
          → Cared salt is_leaf kids placement acked after k
      stays-Cared k h = Leads-Cared salt is_leaf kids placement acked leads k h

      Children : Part → ℕ → Type 0
      Children q k =
          (q.mark.missing ≢ [])
          ⊎ ((x : ℕ) → elem x (kids k) ≡ true → Cared salt is_leaf kids placement acked after x)

      old-Children : (m k : ℕ) → elem k (c.part m).mark.visited ≡ true → Children (c.part m) k
      unfolding Children
      old-Children m k h = elim (i.children m k h) [
        | inl e ↦ inl e
        | inr f ↦ inr (λ x e. stays-Cared x (f x e))
      ]

      new-Children : (k : ℕ) → elem k p.mark.visited ≡ true → Children p k
      unfolding Children
      new-Children k h = elim (new.new_visited k h) [
        | inl o ↦ elim (old-Children n k o) [ inl e ↦ inl (λ z. e (new.missing z)) | inr f ↦ inr f ]
        | inr (inl e) ↦ inl e
        | inr (inr f) ↦ inr (λ x e. new-Cared x (inl (inl (f x e))))
      ]

      stays-Looked :
          (k : ℕ)
          → Looked salt is_leaf kids placement acked c k
          → Looked salt is_leaf kids placement acked after k
      stays-Looked k h = Leads-Looked salt is_leaf kids placement acked leads k h

      new-Looked :
          (k : ℕ)
          → was_forwarded (home salt is_leaf kids placement acked k) k p.mark.forward ≡ true
          → Looked salt is_leaf kids placement acked after k
      new-Looked k h = elim (new.new_forward (home salt is_leaf kids placement acked k) k h) [
        | inl o ↦ stays-Looked k (i.forwarded n k o)
        | inr e ↦ inr (expand-OnWay (home salt is_leaf kids placement acked k) k e)
      ]

      -- A fact that holds of every node's old state, and of the new state of this one.
      every : (P : Part → Type 0) → P p → ((m : ℕ) → P (c.part m)) → (m : ℕ) → P (after.part m)
      every P h f m = part_case P (m == n) p (c.part m) (λ _. h) (λ _. f m)

      pub Carries-Marks : Marks salt is_leaf kids placement acked after
      unfolding Children
      Carries-Marks = record {
        cared = λ k h. elim (new.new_root k h) [
          | inl o ↦ stays-Cared k (i.cared k o)
          | inr e ↦ new-Cared k e
        ];
        children = λ m k.
            every (λ q. elem k q.mark.visited ≡ true → Children q k) (new-Children k)
              (λ x. old-Children x k) m;
        forwarded = λ m k.
            every
              (λ q.
                was_forwarded (home salt is_leaf kids placement acked k) k q.mark.forward ≡ true
                → Looked salt is_leaf kids placement acked after k)
              (new-Looked k) (λ x h. stays-Looked k (i.forwarded x k h)) m;
        placement_is =
            every (λ q. q.mark.placement ≡ placement) (new.placement_same ∙ i.placement_is n)
              i.placement_is;
        acked_are = every (λ q. q.mark.acked ≡ acked) (new.acked_same ∙ i.acked_are n) i.acked_are;
        busy = every (λ q. (q.batch ≡ []) ⊎ (q.mark.busy ≢ 0)) (new.busy (i.busy n)) i.busy;
      }
