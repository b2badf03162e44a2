-- ===== src/Node/Gc/Cluster/Delivered.antt =====
-- Delivering a key reaches each acknowledged owner, and leaves the rest alone.
use mathlib.Core.Path.{subst}
use dstore.Prelude.{
  ℕ, ◌≡◌, refl, sym, ◌∙◌, ap, ◌⊎◌, inl, inr, Bool, true, false, ◌&&◌, not, List, [], ◌∷◌, ◌==◌,
  ==_iff, if◌then◌else◌, elem, arith, Bool-cases,
}
use dstore.View.{contains}
use dstore.Node.Gc.Sweep.{pack_of}
use dstore.Node.Gc.Mark.{MarkState, OutBatch, has_pack, mark_key, deliver_one, deliver_to}
use dstore.Node.Gc.Cluster.Grows.{
  waiting, Grows, IsMarked, IsMarked-mark_key, IsMarked-Grows, put-waiting, elem-last,
  deliver_to-Grows,
}

-- The key is marked at an acknowledged owner, or waits for it.
abbrev pub Delivered : ℕ → MarkState → ℕ → ℕ → Type 0
Delivered self ms k o =
    contains ms.acked o ≡ true
    → ((o ≡ self) × IsMarked ms k) ⊎ (elem k ((waiting o ms).keys) ≡ true)

pub Delivered-Grows :
    (self : ℕ) {a b : MarkState} (k o : ℕ) → Grows a b → Delivered self a k o → Delivered self b k o
Delivered-Grows self k o g d h = elim (d (ap (λ x. contains x o) (sym g.acked) ∙ h)) [
  | inl (e, m) ↦ inl (e, IsMarked-Grows k g m)
  | inr w ↦ inr (g.keys o k w)
]

-- What delivering leaves alone.
pub record Leaves (ms ms' : MarkState) : Type 0 where
  pub forward : ms'.forward ≡ ms.forward
  pub visited : ms'.visited ≡ ms.visited
  pub missing : ms'.missing ≡ ms.missing

Leaves-if :
    {ms : MarkState} (b : Bool) (x y : MarkState)
    → Leaves ms x
    → Leaves ms y
    → Leaves ms (if b then x else y)
Leaves-if true x y g h = g
Leaves-if false x y g h = h

mark_key-Leaves : (ms : MarkState) (k : ℕ) → Leaves ms (mark_key ms k)
unfolding mark_key
mark_key-Leaves ms k =
    Leaves-if (has_pack (pack_of k ms.eligible) && not (elem k ms.marked))
      (record ms { marked = k ∷ ms.marked }) ms
      (record { forward = refl; visited = refl; missing = refl })
      (record { forward = refl; visited = refl; missing = refl })

module _ (salt : ℕ → ℕ) (is_leaf : ℕ → Bool) (self : ℕ) where
  deliver_one-Leaves : (k o : ℕ) (ms : MarkState) → Leaves ms (deliver_one salt is_leaf self k o ms)
  unfolding deliver_one
  deliver_one-Leaves k o ms =
      Leaves-if (not (contains ms.acked o)) ms _
        (record { forward = refl; visited = refl; missing = refl })
        (Leaves-if (o == self) (mark_key ms k) _ (mark_key-Leaves ms k)
          (record { forward = refl; visited = refl; missing = refl }))

  pub deliver_to-Leaves :
      (k : ℕ) (os : List ℕ) (ms : MarkState) → Leaves ms (deliver_to salt is_leaf self k os ms)
  unfolding deliver_to
  deliver_to-Leaves k [] ms = record { forward = refl; visited = refl; missing = refl }
  deliver_to-Leaves k (o ∷ os) ms =
      let here = deliver_one-Leaves k o ms in
      let rest = deliver_to-Leaves k os (deliver_one salt is_leaf self k o ms) in
      record {
        forward = rest.forward ∙ here.forward;
        visited = rest.visited ∙ here.visited;
        missing = rest.missing ∙ here.missing;
      }

  deliver_one-Delivered :
      (k o : ℕ) (ms : MarkState) → Delivered self (deliver_one salt is_leaf self k o ms) k o
  unfolding deliver_one
  deliver_one-Delivered k o ms = elim (Bool-cases (contains ms.acked o)) [
    | inr f ↦ rw f (λ h. cc)
    | inl t ↦ rw t (elim (Bool-cases (o == self)) [
      | inl u ↦ rw u (λ h. inl ((==_iff o self).0 u, IsMarked-mark_key ms k))
      | inr u ↦ rw u (λ h. inr (
          ap (λ (b : OutBatch). elem k b.keys) (put-waiting o _ ms.out)
          ∙ elem-last k ((waiting o ms).keys)))
    ])
  ]

  pub deliver_to-Delivered :
      (k o : ℕ) (os : List ℕ) (ms : MarkState)
      → elem o os ≡ true
      → Delivered self (deliver_to salt is_leaf self k os ms) k o
  unfolding deliver_to
  deliver_to-Delivered k o [] ms h = cc
  deliver_to-Delivered k o (p ∷ os) ms h =
      let rest = deliver_one salt is_leaf self k p ms in
      elim (Bool-cases (p == o)) [
        | inl e ↦
            Delivered-Grows self k o (deliver_to-Grows salt is_leaf self k os rest) (
              subst (λ q. Delivered self rest k q) ((==_iff p o).0 e)
                (deliver_one-Delivered k p ms))
        | inr e ↦ deliver_to-Delivered k o os rest (ground arith)
      ]
