-- ===== src/Node/Gc/Cluster/Leads.antt =====
-- What becomes of a key that is on its way when one worker takes a step.
use dstore.Prelude.{ℕ, ◌≡◌, ◌≢◌, refl, ◌⊎◌, inl, inr, Bool, true, List, [], elem}
use dstore.View.{View, contains}
use dstore.View.Tables.{write_set, read_order}
use dstore.Node.Gc.Mark.{first_acked, was_forwarded}
use dstore.Node.Gc.Cluster.Grows.{waiting, IsMarked}
use dstore.Node.Gc.Cluster.State.{Packet, Part, Cluster, brings, brings_work}

abbrev pub At : Part → ℕ → Type 0
At p k = (elem k p.mark.queue ≡ true) ⊎ (elem k p.batch ≡ true)

-- The key is on its way to be processed at the node.
abbrev pub OnWay : Cluster → ℕ → ℕ → Type 0
OnWay c n k =
    At (c.part n) k
    ⊎ ((brings_work n k c.flight ≡ true)
        ⊎ ((m : ℕ) × (elem k ((waiting n (c.part m).mark).expand) ≡ true)))

-- The key is marked at the owner, or on its way to it.
abbrev pub Told : Cluster → ℕ → ℕ → Type 0
Told c o k =
    IsMarked (c.part o).mark k
    ⊎ ((brings o k c.flight ≡ true)
        ⊎ ((m : ℕ) × (elem k ((waiting o (c.part m).mark).keys) ≡ true)))

module _ (salt : ℕ → ℕ) (is_leaf : ℕ → Bool) (kids : ℕ → List ℕ) (placement : View)
    (acked : List ℕ) where
  abbrev pub home : ℕ → ℕ
  home k = first_acked acked (read_order salt placement k)

  abbrev pub Seen : Cluster → ℕ → Type 0
  Seen c k = (is_leaf k ≡ true) ⊎ (elem k (c.part (home k)).mark.visited ≡ true)

  abbrev pub Looked : Cluster → ℕ → Type 0
  Looked c k = Seen c k ⊎ OnWay c (home k) k

  abbrev pub AllTold : Cluster → ℕ → Type 0
  AllTold c k =
      (o : ℕ) → elem o (write_set salt placement k) ≡ true → contains acked o ≡ true → Told c o k

  -- The node has processed the key.
  pub record Handled (c : Cluster) (n k : ℕ) : Type 0 where
    pub told : AllTold c k
    pub looked : Looked c k
    pub seen : n ≡ home k → Seen c k

  -- The key is taken care of.
  abbrev pub Cared : Cluster → ℕ → Type 0
  Cared c k = ((n : ℕ) × OnWay c n k) ⊎ (AllTold c k × Looked c k)

  pub record Leads (c c' : Cluster) : Type 0 where
    pub way : (n k : ℕ) → OnWay c n k → OnWay c' n k ⊎ Handled c' n k
    pub told : (o k : ℕ) → Told c o k → Told c' o k
    pub visited :
        (n k : ℕ) → elem k (c.part n).mark.visited ≡ true → elem k (c'.part n).mark.visited ≡ true

  module _ {c c' : Cluster} (l : Leads c c') where
    Leads-Seen : (k : ℕ) → Seen c k → Seen c' k
    Leads-Seen k (inl h) = inl h
    Leads-Seen k (inr h) = inr (l.visited (home k) k h)

    pub Leads-Looked : (k : ℕ) → Looked c k → Looked c' k
    Leads-Looked k (inl h) = inl (Leads-Seen k h)
    Leads-Looked k (inr h) = elim (l.way (home k) k h) [ inl w ↦ inr w | inr d ↦ inl (d.seen refl) ]

    pub Leads-Cared : (k : ℕ) → Cared c k → Cared c' k
    Leads-Cared k (inl (n, h)) = elim (l.way n k h) [
      | inl w ↦ inl (n, w)
      | inr d ↦ inr (d.told, d.looked)
    ]
    Leads-Cared k (inr (t, s)) = inr (λ o i a. l.told o k (t o i a), Leads-Looked k s)

  -- The key leaves the node's hands: it has been delivered, and its worker has it or has been told.
  pub record Gone (n : ℕ) (p p' : Part) (k : ℕ) : Type 0 where
    pub told :
        (o : ℕ)
        → elem o (write_set salt placement k) ≡ true
        → contains acked o ≡ true
        → ((o ≡ n) × IsMarked p'.mark k) ⊎ (elem k ((waiting o p'.mark).keys) ≡ true)
    pub looked :
        (is_leaf k ≡ true)
        ⊎ (((home k ≡ n) × (elem k p'.mark.visited ≡ true))
            ⊎ ((home k ≢ n)
                × ((elem k ((waiting (home k) p'.mark).expand) ≡ true)
                    ⊎ (was_forwarded (home k) k p.mark.forward ≡ true))))

  -- One node's step, as its keys see it.
  pub record Carries (n : ℕ) (p p' : Part) (fl fl' : List Packet) : Type 0 where
    pub at : (k : ℕ) → At p k → At p' k ⊎ Gone n p p' k
    pub expand :
        (w k : ℕ)
        → elem k ((waiting w p.mark).expand) ≡ true
        → (elem k ((waiting w p'.mark).expand) ≡ true) ⊎ (brings_work w k fl' ≡ true)
    pub keys :
        (o k : ℕ)
        → elem k ((waiting o p.mark).keys) ≡ true
        → (elem k ((waiting o p'.mark).keys) ≡ true) ⊎ (brings o k fl' ≡ true)
    pub work :
        (w k : ℕ) → brings_work w k fl ≡ true → (brings_work w k fl' ≡ true) ⊎ ((w ≡ n) × At p' k)
    pub told :
        (o k : ℕ) → brings o k fl ≡ true → (brings o k fl' ≡ true) ⊎ ((o ≡ n) × IsMarked p'.mark k)
    pub visited : (k : ℕ) → elem k p.mark.visited ≡ true → elem k p'.mark.visited ≡ true
    pub marked : (k : ℕ) → IsMarked p.mark k → IsMarked p'.mark k

  -- The keys that a node's step finds anew.
  pub record News (p p' : Part) (roots : List ℕ) (roots' : List ℕ) : Type 0 where
    pub new_visited :
        (k : ℕ)
        → elem k p'.mark.visited ≡ true
        → (elem k p.mark.visited ≡ true)
          ⊎ ((p'.mark.missing ≢ [])
              ⊎ ((x : ℕ) → elem x (kids k) ≡ true → elem x p'.mark.queue ≡ true))
    pub new_forward :
        (w k : ℕ)
        → was_forwarded w k p'.mark.forward ≡ true
        → (was_forwarded w k p.mark.forward ≡ true) ⊎ (elem k ((waiting w p'.mark).expand) ≡ true)
    pub new_root :
        (k : ℕ)
        → elem k roots' ≡ true
        → (elem k roots ≡ true)
          ⊎ (At p' k ⊎ ((w : ℕ) × (elem k ((waiting w p'.mark).expand) ≡ true)))
    pub missing : p'.mark.missing ≡ [] → p.mark.missing ≡ []
    pub placement_same : p'.mark.placement ≡ p.mark.placement
    pub acked_same : p'.mark.acked ≡ p.mark.acked
    pub busy : (p.batch ≡ []) ⊎ (p.mark.busy ≢ 0) → (p'.batch ≡ []) ⊎ (p'.mark.busy ≢ 0)

  -- No key is lost: every root, every child of an expanded object and every forwarded key is cared for.
  pub record Marks (c : Cluster) : Type 0 where
    pub cared : (k : ℕ) → elem k c.roots ≡ true → Cared c k
    pub children :
        (n k : ℕ)
        → elem k (c.part n).mark.visited ≡ true
        → ((c.part n).mark.missing ≢ []) ⊎ ((x : ℕ) → elem x (kids k) ≡ true → Cared c x)
    pub forwarded : (n k : ℕ) → was_forwarded (home k) k (c.part n).mark.forward ≡ true → Looked c k
    pub placement_is : (n : ℕ) → (c.part n).mark.placement ≡ placement
    pub acked_are : (n : ℕ) → (c.part n).mark.acked ≡ acked
    pub busy : (n : ℕ) → ((c.part n).batch ≡ []) ⊎ ((c.part n).mark.busy ≢ 0)
