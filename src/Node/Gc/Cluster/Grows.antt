-- ===== src/Node/Gc/Cluster/Grows.antt =====
-- What delivering and processing a key leaves in a worker's mark: nothing is lost but the key in hand.
use mathlib.Core.Path.{subst}
use dstore.Prelude.{
  ℕ, ◌≡◌, refl, sym, ◌∙◌, ap, inl, inr, Bool, true, false, ◌&&◌, not, some, List, [], ◌∷◌, ◌++◌,
  ◌==◌, ==_iff, if◌then◌else◌, elem, arith, Bool-cases, elem-append, elem-left,
}
use dstore.View.{contains}
use dstore.Node.Gc.Sweep.{pack_of}
use dstore.Node.Gc.Mark.{
  MarkState, OutBatch, batch_of, batch_or_new, put_batch, has_pack, mark_key, deliver_one,
  deliver_to,
}

-- The keys and the keys to expand that wait for a target.
abbrev pub waiting : ℕ → MarkState → OutBatch
waiting o ms = batch_or_new (batch_of o ms.out)

pub record Grows (ms ms' : MarkState) : Type 0 where
  pub placement : ms'.placement ≡ ms.placement
  pub busy : ms'.busy ≡ ms.busy
  pub acked : ms'.acked ≡ ms.acked
  pub eligible : ms'.eligible ≡ ms.eligible
  pub queue : (k : ℕ) → elem k ms.queue ≡ true → elem k ms'.queue ≡ true
  pub keys : (o k : ℕ) → elem k ((waiting o ms).keys) ≡ true → elem k ((waiting o ms').keys) ≡ true
  pub expand :
      (o k : ℕ) → elem k ((waiting o ms).expand) ≡ true → elem k ((waiting o ms').expand) ≡ true
  pub marked : (k : ℕ) → elem k ms.marked ≡ true → elem k ms'.marked ≡ true
  pub visited : (k : ℕ) → elem k ms.visited ≡ true → elem k ms'.visited ≡ true
  pub missing : ms'.missing ≡ [] → ms.missing ≡ []

pub Grows-same : (ms : MarkState) → Grows ms ms
Grows-same ms = record {
  placement = refl;
  busy = refl;
  acked = refl;
  eligible = refl;
  queue = λ k h. h;
  keys = λ o k h. h;
  expand = λ o k h. h;
  marked = λ k h. h;
  visited = λ k h. h;
  missing = λ h. h;
}

pub Grows-then : {a b c : MarkState} → Grows a b → Grows b c → Grows a c
Grows-then g h = record {
  placement = h.placement ∙ g.placement;
  busy = h.busy ∙ g.busy;
  acked = h.acked ∙ g.acked;
  eligible = h.eligible ∙ g.eligible;
  queue = λ k e. h.queue k (g.queue k e);
  keys = λ o k e. h.keys o k (g.keys o k e);
  expand = λ o k e. h.expand o k (g.expand o k e);
  marked = λ k e. h.marked k (g.marked k e);
  visited = λ k e. h.visited k (g.visited k e);
  missing = λ e. g.missing (h.missing e);
}

pub Grows-if :
    {ms : MarkState} (b : Bool) (x y : MarkState)
    → Grows ms x
    → Grows ms y
    → Grows ms (if b then x else y)
Grows-if true x y g h = g
Grows-if false x y g h = h

pub batch_of-put_batch :
    (o id : ℕ) (b : OutBatch) (out : List (ℕ × OutBatch))
    → batch_of o (put_batch id b out) ≡ (if id == o then some b else batch_of o out)
unfolding batch_of put_batch
batch_of-put_batch o id b [] = refl
batch_of-put_batch o id b (e ∷ es) = elim (Bool-cases (e.0 == id)) [
  | inl t ↦ rw t (elim (Bool-cases (id == o)) [
    | inl u ↦ rw u refl
    | inr u ↦
        let v : (e.0 == o) ≡ false = ap (λ i. i == o) ((==_iff (e.0) id).0 t) ∙ u in rw (u, v) refl
  ])
  | inr f ↦
      rw (f, batch_of-put_batch o id b es)
        (elim (Bool-cases (id == o)) [
          | inr u ↦ rw u refl
          | inl u ↦
              let v : (e.0 == o) ≡ false = ap (λ i. e.0 == i) (sym ((==_iff id o).0 u)) ∙ f in
              rw (u, v) refl
        ])
]

pub put-here :
    (o id : ℕ) (b : OutBatch) (out : List (ℕ × OutBatch))
    → (id == o) ≡ true
    → batch_of o (put_batch id b out) ≡ some b
put-here o id b out u = rw (batch_of-put_batch o id b out, u) refl

pub put-there :
    (o id : ℕ) (b : OutBatch) (out : List (ℕ × OutBatch))
    → (id == o) ≡ false
    → batch_of o (put_batch id b out) ≡ batch_of o out
put-there o id b out u = rw (batch_of-put_batch o id b out, u) refl

pub put-waiting :
    (o : ℕ) (b : OutBatch) (out : List (ℕ × OutBatch))
    → batch_or_new (batch_of o (put_batch o b out)) ≡ b
unfolding batch_or_new
put-waiting o b out = ap batch_or_new (put-here o o b out ((==_iff o o).1 refl))

pub elem-last : (k : ℕ) (xs : List ℕ) → elem k (xs ++ k ∷ []) ≡ true
elem-last k xs = ground (arith, elem-append k xs (k ∷ []))

-- A batch that only grows.
record Wider (b b' : OutBatch) : Type 0 where
  keys : (k : ℕ) → elem k b.keys ≡ true → elem k b'.keys ≡ true
  expand : (k : ℕ) → elem k b.expand ≡ true → elem k b'.expand ≡ true

Wider-put :
    (id o : ℕ) (b : OutBatch) (out : List (ℕ × OutBatch))
    → Wider (batch_or_new (batch_of id out)) b
    → Wider (batch_or_new (batch_of o out)) (batch_or_new (batch_of o (put_batch id b out)))
unfolding batch_or_new
Wider-put id o b out w = elim (Bool-cases (id == o)) [
  | inl u ↦
      subst (λ x. Wider (batch_or_new (batch_of o out)) (batch_or_new x))
        (sym (put-here o id b out u))
        (subst (λ i. Wider (batch_or_new (batch_of i out)) b) ((==_iff id o).0 u) w)
  | inr u ↦
      subst (λ x. Wider (batch_or_new (batch_of o out)) (batch_or_new x))
        (sym (put-there o id b out u)) (record { keys = λ k h. h; expand = λ k h. h })
]

-- A worker that puts a wider batch.
pub Grows-put :
    (ms : MarkState) (id : ℕ) (b : OutBatch)
    → ((k : ℕ) → elem k ((waiting id ms).keys) ≡ true → elem k b.keys ≡ true)
    → ((k : ℕ) → elem k ((waiting id ms).expand) ≡ true → elem k b.expand ≡ true)
    → Grows ms (record ms { out = put_batch id b ms.out })
Grows-put ms id b wk we =
    let wide : (o : ℕ) → Wider (waiting o ms) (batch_or_new (batch_of o (put_batch id b ms.out))) =
      λ o. Wider-put id o b ms.out (record { keys = wk; expand = we }) in
    record {
      placement = refl;
      busy = refl;
      acked = refl;
      eligible = refl;
      queue = λ k h. h;
      keys = λ o k h. (wide o).keys k h;
      expand = λ o k h. (wide o).expand k h;
      marked = λ k h. h;
      visited = λ k h. h;
      missing = λ h. h;
    }

pub mark_key-Grows : (ms : MarkState) (k : ℕ) → Grows ms (mark_key ms k)
unfolding mark_key
mark_key-Grows ms k =
    Grows-if (has_pack (pack_of k ms.eligible) && not (elem k ms.marked))
      (record ms { marked = k ∷ ms.marked }) ms
      (record {
        placement = refl;
        busy = refl;
        acked = refl;
        eligible = refl;
        queue = λ k h. h;
        keys = λ o k h. h;
        expand = λ o k h. h;
        marked = λ a h. ground arith;
        visited = λ k h. h;
        missing = λ h. h;
      })
      (Grows-same ms)

-- A key that can be marked is, after mark_key.
abbrev pub IsMarked : MarkState → ℕ → Type 0
IsMarked ms k = has_pack (pack_of k ms.eligible) ≡ true → elem k ms.marked ≡ true

pub IsMarked-mark_key : (ms : MarkState) (k : ℕ) → IsMarked (mark_key ms k) k
unfolding mark_key
IsMarked-mark_key ms k =
    elim (Bool-cases (has_pack (pack_of k ms.eligible) && not (elem k ms.marked))) [
      | inl t ↦ rw t (λ h. ground arith)
      | inr f ↦ rw f (λ h. ground arith)
    ]

pub IsMarked-Grows : {a b : MarkState} (k : ℕ) → Grows a b → IsMarked a k → IsMarked b k
IsMarked-Grows {a} {b} k g m h =
    g.marked k (m (ap (λ e. has_pack (pack_of k e)) (sym g.eligible) ∙ h))

module _ (salt : ℕ → ℕ) (is_leaf : ℕ → Bool) (self : ℕ) where
  deliver_one-Grows : (k o : ℕ) (ms : MarkState) → Grows ms (deliver_one salt is_leaf self k o ms)
  unfolding deliver_one
  deliver_one-Grows k o ms = Grows-if (not (contains ms.acked o)) ms _ (Grows-same ms) (
      Grows-if (o == self) (mark_key ms k) _ (mark_key-Grows ms k)
        (Grows-put ms o _ (λ a h. elem-left a ((waiting o ms).keys) (k ∷ []) h) (λ a h. h)))

  pub deliver_to-Grows :
      (k : ℕ) (os : List ℕ) (ms : MarkState) → Grows ms (deliver_to salt is_leaf self k os ms)
  unfolding deliver_to
  deliver_to-Grows k [] ms = Grows-same ms
  deliver_to-Grows k (o ∷ os) ms =
      Grows-then (deliver_one-Grows k o ms)
        (deliver_to-Grows k os (deliver_one salt is_leaf self k o ms))
