-- ===== src/Node/Gc/Cluster/Sending.antt =====
-- A batch that leaves a worker: what it takes from the waiting keys is in its packet.
use mathlib.Core.Path.{subst}
use dstore.Prelude.{
  ℕ, ◌≡◌, refl, sym, ◌∙◌, ap, ◌⊎◌, inl, inr, Bool, true, false, not, Option, none, some, List, [],
  ◌∷◌, ◌==◌, ==_iff, if◌then◌else◌, elem, arith, Bool-cases, take, drop, length,
}
use dstore.View.{View}
use dstore.Node.Gc.Sweep.{pack_of}
use dstore.Node.Gc.Mark.{
  MarkState, OutBatch, Send, max_keys, batch_of, batch_or_new, put_batch, drop_batch, counted,
  send_batch, send_from, next_send, has_pack, was_forwarded,
}
use dstore.Node.Gc.Cluster.Grows.{waiting, put-here, put-there}
use dstore.Node.Gc.Cluster.State.{Packet, Part, with_packet, brings, brings_work}
use dstore.Node.Gc.Cluster.Leads.{Carries, News}
use dstore.Node.Gc.Cluster.Steps.{elem-take}

-- What a send leaves of the keys that wait.
record Sent (ms ms' : MarkState) (fl fl' : List Packet) : Type 0 where
  expand :
      (w k : ℕ)
      → elem k ((waiting w ms).expand) ≡ true
      → (elem k ((waiting w ms').expand) ≡ true) ⊎ (brings_work w k fl' ≡ true)
  keys :
      (o k : ℕ)
      → elem k ((waiting o ms).keys) ≡ true
      → (elem k ((waiting o ms').keys) ≡ true) ⊎ (brings o k fl' ≡ true)
  work : (w k : ℕ) → brings_work w k fl ≡ true → brings_work w k fl' ≡ true
  told : (o k : ℕ) → brings o k fl ≡ true → brings o k fl' ≡ true
  queue_is : ms'.queue ≡ ms.queue
  visited_is : ms'.visited ≡ ms.visited
  forward_is : ms'.forward ≡ ms.forward
  marked_is : ms'.marked ≡ ms.marked
  eligible_is : ms'.eligible ≡ ms.eligible
  missing_is : ms'.missing ≡ ms.missing
  placement_is : ms'.placement ≡ ms.placement
  acked_is : ms'.acked ≡ ms.acked
  busy_is : ms'.busy ≡ ms.busy

module _ (id : ℕ) (out : List (ℕ × OutBatch)) where
  put-either :
      (w : ℕ) (b : OutBatch)
      → ((id ≡ w) × (batch_or_new (batch_of w (put_batch id b out)) ≡ b))
        ⊎ (batch_or_new (batch_of w (put_batch id b out)) ≡ batch_or_new (batch_of w out))
  unfolding batch_or_new
  put-either w b = elim (Bool-cases (id == w)) [
    | inl t ↦ inl ((==_iff id w).0 t, ap batch_or_new (put-here w id b out t))
    | inr f ↦ inr (ap batch_or_new (put-there w id b out f))
  ]

drop-other :
    (id w : ℕ) (out : List (ℕ × OutBatch))
    → (id == w) ≡ false
    → batch_of w (drop_batch id out) ≡ batch_of w out
unfolding drop_batch batch_of
drop-other id w [] f = refl
drop-other id w (e ∷ es) f = elim (Bool-cases (e.0 == id)) [
  | inl t ↦
      let u : (e.0 == w) ≡ false = ap (λ i. i == w) ((==_iff (e.0) id).0 t) ∙ f in rw (t, u) refl
  | inr u ↦ rw u (elim (Bool-cases (e.0 == w)) [
    | inl t ↦ rw t refl
    | inr v ↦ rw (v, drop-other id w es f) refl
  ])
]

module _ (id : ℕ) (ms : MarkState) (fl : List Packet) where
  -- The batch that stays and the keys that leave make up the batch that was there.
  counted-Sent :
      (b' : OutBatch) (keys : List ℕ) (expand : Bool)
      → ((k : ℕ)
          → elem k ((waiting id ms).expand) ≡ true
          → (elem k b'.expand ≡ true) ⊎ ((expand ≡ true) × (elem k keys ≡ true)))
      → ((k : ℕ)
          → elem k ((waiting id ms).keys) ≡ true
          → (elem k b'.keys ≡ true) ⊎ (elem k keys ≡ true))
      → Sent ms
          ((counted id ms b' keys expand).0)
          fl
          (with_packet id ((counted id ms b' keys expand).1) fl)
  unfolding counted with_packet
  counted-Sent b' keys expand we wk = record {
    expand = λ w k h. elim (put-either id ms.out w b') [
      | inl (e, s) ↦ elim (we k (subst (λ i. elem k ((waiting i ms).expand) ≡ true) (sym e) h)) [
        | inl x ↦ inl (ap (λ (c : OutBatch). elem k c.expand) s ∙ x)
        | inr (t, x) ↦ inr (let q : (id == w) ≡ true = (==_iff id w).1 e in rw (q, t, x) refl)
      ]
      | inr s ↦ inl (ap (λ (c : OutBatch). elem k c.expand) s ∙ h)
    ];
    keys = λ w k h. elim (put-either id ms.out w b') [
      | inl (e, s) ↦ elim (wk k (subst (λ i. elem k ((waiting i ms).keys) ≡ true) (sym e) h)) [
        | inl x ↦ inl (ap (λ (c : OutBatch). elem k c.keys) s ∙ x)
        | inr x ↦ inr (let q : (id == w) ≡ true = (==_iff id w).1 e in rw (q, x) refl)
      ]
      | inr s ↦ inl (ap (λ (c : OutBatch). elem k c.keys) s ∙ h)
    ];
    work = λ w k h. ground arith;
    told = λ o k h. ground arith;
    queue_is = refl;
    visited_is = refl;
    forward_is = refl;
    marked_is = refl;
    eligible_is = refl;
    missing_is = refl;
    placement_is = refl;
    acked_is = refl;
    busy_is = refl;
  }

  none-in : (k : ℕ) (xs : List ℕ) → (not (length xs == 0)) ≡ false → elem k xs ≡ true → ⊥
  none-in k [] f h = cc
  none-in k (x ∷ xs) f h = ground arith

  dropped-Sent :
      (not (length ((waiting id ms).expand) == 0)) ≡ false
      → (not (length ((waiting id ms).keys) == 0)) ≡ false
      → Sent ms (record ms { out = drop_batch id ms.out }) fl fl
  dropped-Sent ee ke = record {
    expand = λ w k h. elim (Bool-cases (id == w)) [
      | inl t ↦ absurd (
          none-in k ((waiting id ms).expand) ee
            (subst (λ i. elem k ((waiting i ms).expand) ≡ true) (sym ((==_iff id w).0 t)) h))
      | inr f ↦ inl (ap (λ x. elem k ((batch_or_new x).expand)) (drop-other id w ms.out f) ∙ h)
    ];
    keys = λ w k h. elim (Bool-cases (id == w)) [
      | inl t ↦ absurd (
          none-in k ((waiting id ms).keys) ke
            (subst (λ i. elem k ((waiting i ms).keys) ≡ true) (sym ((==_iff id w).0 t)) h))
      | inr f ↦ inl (ap (λ x. elem k ((batch_or_new x).keys)) (drop-other id w ms.out f) ∙ h)
    ];
    work = λ w k h. h;
    told = λ o k h. h;
    queue_is = refl;
    visited_is = refl;
    forward_is = refl;
    marked_is = refl;
    eligible_is = refl;
    missing_is = refl;
    placement_is = refl;
    acked_is = refl;
    busy_is = refl;
  }

  SentBy : MarkState × Option Send → Type 0
  SentBy r = Sent ms (r.0) fl (with_packet id (r.1) fl)

  SentBy-if :
      (b : Bool) (x y : MarkState × Option Send)
      → (b ≡ true → SentBy x)
      → (b ≡ false → SentBy y)
      → SentBy (if b then x else y)
  SentBy-if true x y f g = f refl
  SentBy-if false x y f g = g refl

  batch-SentBy : (b : OutBatch) → b ≡ waiting id ms → SentBy (send_batch id ms b)
  unfolding send_batch SentBy with_packet
  batch-SentBy b e =
      SentBy-if (not (length b.expand == 0)) _ _
        (λ t.
          counted-Sent (record b { expand = drop max_keys b.expand }) (take max_keys b.expand) true
            (λ k h.
              elim (elem-take k max_keys b.expand (ap (λ (c : OutBatch). elem k c.expand) e ∙ h)) [
                | inl d ↦ inl d
                | inr x ↦ inr (refl, x)
              ])
            (λ k h. inl (ap (λ (c : OutBatch). elem k c.keys) e ∙ h)))
        (λ f.
          SentBy-if (not (length b.keys == 0)) _ _
            (λ t.
              counted-Sent (record b { keys = drop max_keys b.keys }) (take max_keys b.keys) false
                (λ k h. inl (ap (λ (c : OutBatch). elem k c.expand) e ∙ h))
                (λ k h.
                  elim (elem-take k max_keys b.keys (ap (λ (c : OutBatch). elem k c.keys) e ∙ h)) [
                    | inl d ↦ inl d
                    | inr x ↦ inr x
                  ]))
            (λ g.
              dropped-Sent (ap (λ (c : OutBatch). not (length c.expand == 0)) (sym e) ∙ f)
                (ap (λ (c : OutBatch). not (length c.keys == 0)) (sym e) ∙ g)))

  from-SentBy : (o : Option OutBatch) → o ≡ batch_of id ms.out → SentBy (send_from id ms o)
  unfolding send_from SentBy with_packet batch_or_new
  from-SentBy none e = record {
    expand = λ w k h. inl h;
    keys = λ w k h. inl h;
    work = λ w k h. h;
    told = λ o k h. h;
    queue_is = refl;
    visited_is = refl;
    forward_is = refl;
    marked_is = refl;
    eligible_is = refl;
    missing_is = refl;
    placement_is = refl;
    acked_is = refl;
    busy_is = refl;
  }
  from-SentBy (some b) e = batch-SentBy b (ap batch_or_new e)

  next-SentBy : SentBy (next_send id ms)
  unfolding next_send
  next-SentBy = from-SentBy (batch_of id ms.out) refl

module _ (salt : ℕ → ℕ) (is_leaf : ℕ → Bool) (kids : ℕ → List ℕ) (placement : View)
    (acked : List ℕ) where
  module _ (n o : ℕ) (p : Part) (fl : List Packet) where
    abbrev pub sent : Part
    sent = record p { mark = (next_send o p.mark).0 }

    abbrev pub sent_flight : List Packet
    sent_flight = with_packet o ((next_send o p.mark).1) fl

    facts : Sent p.mark sent.mark fl sent_flight
    unfolding SentBy
    facts = next-SentBy o p.mark fl

    pub sent-Carries : Carries salt is_leaf kids placement acked n p sent fl sent_flight
    sent-Carries = record {
      at = λ k h. elim h [
        | inl q ↦ inl (inl (ap (λ x. elem k x) facts.queue_is ∙ q))
        | inr b ↦ inl (inr b)
      ];
      expand = facts.expand;
      keys = facts.keys;
      work = λ w k h. inl (facts.work w k h);
      told = λ w k h. inl (facts.told w k h);
      visited = λ k h. ap (λ x. elem k x) facts.visited_is ∙ h;
      marked = λ k m h.
          ap (λ x. elem k x) facts.marked_is
          ∙ m (ap (λ x. has_pack (pack_of k x)) (sym facts.eligible_is) ∙ h);
    }

    pub sent-News : (roots : List ℕ) → News salt is_leaf kids placement acked p sent roots roots
    sent-News roots = record {
      new_visited = λ k h. inl (ap (λ x. elem k x) (sym facts.visited_is) ∙ h);
      new_forward = λ w k h. inl (ap (λ x. was_forwarded w k x) (sym facts.forward_is) ∙ h);
      new_root = λ k h. inl h;
      missing = λ h. sym facts.missing_is ∙ h;
      placement_same = facts.placement_is;
      acked_same = facts.acked_is;
      busy = λ h. elim h [ inl e ↦ inl e | inr e ↦ inr (λ z. e (sym facts.busy_is ∙ z)) ];
    }
