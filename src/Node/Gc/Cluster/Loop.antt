-- ===== src/Node/Gc/Cluster/Loop.antt =====
-- The steps of a worker's loop: a batch begins, its keys are processed, and it ends.
use mathlib.Core.Path.{subst}
use dstore.Prelude.{
  ℕ, ◌≡◌, ◌≢◌, refl, sym, ◌∙◌, ap, ◌⊎◌, inl, inr, Bool, true, Option, none, some, List, [], ◌∷◌,
  ◌==◌, elem, arith, Bool-cases, length, cons-elem,
}
use dstore.View.{View, contains}
use dstore.View.Tables.{write_set, read_order}
use dstore.Node.Gc.Mark.{
  first_acked, worker, process, was_forwarded, start_batch, end_batch, send_refused,
}
use dstore.Node.Gc.Cluster.Grows.{waiting}
use dstore.Node.Gc.Cluster.Process.{last-some, Expanded}
use dstore.Node.Gc.Cluster.Processed.{Processed, process-Processed}
use dstore.Node.Gc.Cluster.State.{Packet, Part}
use dstore.Node.Gc.Cluster.Leads.{home, Gone, Carries, News}
use dstore.Node.Gc.Cluster.Steps.{elem-take, Carries-Grows}

module _ (salt : ℕ → ℕ) (is_leaf : ℕ → Bool) (kids : ℕ → List ℕ) (placement : View)
    (acked : List ℕ) where
  module _ (n : ℕ) (p : Part) (fl : List Packet) (roots : List ℕ) where
    abbrev pub begun : Part
    begun = record { mark = (start_batch p.mark).1; batch = (start_batch p.mark).0 }

    pub begun-Carries : p.batch ≡ [] → Carries salt is_leaf kids placement acked n p begun fl fl
    unfolding start_batch
    begun-Carries b = elim (Bool-cases (length p.mark.queue == 0)) [
      | inl t ↦ rw t (record {
        at = λ k h. inl (elim h [ inl q ↦ inl q | inr i ↦ inr (ap (λ x. elem k x) (sym b) ∙ i) ]);
        expand = λ w k h. inl h;
        keys = λ o k h. inl h;
        work = λ w k h. inl h;
        told = λ o k h. inl h;
        visited = λ k h. h;
        marked = λ k h. h;
      })
      | inr f ↦ rw f (record {
        at = λ k h. inl (elim h [
          | inl q ↦ elem-take k 256 p.mark.queue q
          | inr i ↦ let e : elem k [] ≡ true = ap (λ x. elem k x) (sym b) ∙ i in cc
        ]);
        expand = λ w k h. inl h;
        keys = λ o k h. inl h;
        work = λ w k h. inl h;
        told = λ o k h. inl h;
        visited = λ k h. h;
        marked = λ k h. h;
      })
    ]

    pub begun-News : News salt is_leaf kids placement acked p begun roots roots
    unfolding start_batch
    begun-News = elim (Bool-cases (length p.mark.queue == 0)) [
      | inl t ↦ rw t (record {
        new_visited = λ k h. inl h;
        new_forward = λ w k h. inl h;
        new_root = λ k h. inl h;
        missing = λ h. h;
        placement_same = refl;
        acked_same = refl;
        busy = λ h. inl refl;
      })
      | inr f ↦ rw f (record {
        new_visited = λ k h. inl h;
        new_forward = λ w k h. inl h;
        new_root = λ k h. inl h;
        missing = λ h. h;
        placement_same = refl;
        acked_same = refl;
        busy = λ h. inr (λ e. absurd (omega arith));
      })
    ]

    pub ended-Carries :
        Carries salt is_leaf kids placement acked n p (record p { mark = end_batch p.mark }) fl fl
    unfolding end_batch
    ended-Carries = record {
      at = λ k h. inl h;
      expand = λ w k h. inl h;
      keys = λ o k h. inl h;
      work = λ w k h. inl h;
      told = λ o k h. inl h;
      visited = λ k h. h;
      marked = λ k h. h;
    }

    pub ended-News :
        p.batch ≡ []
        → News salt is_leaf kids placement acked p
            (record p { mark = end_batch p.mark })
            roots
            roots
    unfolding end_batch
    ended-News b = record {
      new_visited = λ k h. inl h;
      new_forward = λ w k h. inl h;
      new_root = λ k h. inl h;
      missing = λ h. h;
      placement_same = refl;
      acked_same = refl;
      busy = λ h. inl b;
    }

    pub refused-Carries :
        Carries salt is_leaf kids placement acked n p
          (record p { mark = send_refused p.mark })
          fl
          fl
    unfolding send_refused
    refused-Carries = record {
      at = λ k h. inl h;
      expand = λ w k h. inl h;
      keys = λ o k h. inl h;
      work = λ w k h. inl h;
      told = λ o k h. inl h;
      visited = λ k h. h;
      marked = λ k h. h;
    }

    pub refused-News :
        News salt is_leaf kids placement acked p
          (record p { mark = send_refused p.mark })
          roots
          roots
    unfolding send_refused
    refused-News = record {
      new_visited = λ k h. inl h;
      new_forward = λ w k h. inl h;
      new_root = λ k h. inl h;
      missing = λ h. absurd (last-some 0 p.mark.missing h);
      placement_same = refl;
      acked_same = refl;
      busy = λ h. h;
    }

    module _ (frozen dirty : Bool) where
      abbrev pub reported : Part
      reported = record p { mark = record p.mark { frozen = frozen; dirty = dirty } }

      pub reported-Carries : Carries salt is_leaf kids placement acked n p reported fl fl
      reported-Carries = record {
        at = λ k h. inl h;
        expand = λ w k h. inl h;
        keys = λ o k h. inl h;
        work = λ w k h. inl h;
        told = λ o k h. inl h;
        visited = λ k h. h;
        marked = λ k h. h;
      }

      pub reported-News : News salt is_leaf kids placement acked p reported roots roots
      reported-News = record {
        new_visited = λ k h. inl h;
        new_forward = λ w k h. inl h;
        new_root = λ k h. inl h;
        missing = λ h. h;
        placement_same = refl;
        acked_same = refl;
        busy = λ h. h;
      }

    module _ (found : Option (List ℕ)) (k : ℕ) (ks : List ℕ) (pe : p.mark.placement ≡ placement)
        (ae : p.mark.acked ≡ acked) where
      abbrev pub processed : Part
      processed = record { mark = process salt is_leaf n found k p.mark; batch = ks }

      worker-home : worker salt p.mark k ≡ home salt is_leaf kids placement acked k
      unfolding worker
      worker-home =
          ap (λ x. first_acked x (read_order salt p.mark.placement k)) ae
          ∙ ap (λ v. first_acked acked (read_order salt v k)) pe

      facts : Processed salt is_leaf n found k p.mark processed.mark
      facts = process-Processed salt is_leaf n found k p.mark

      processed-Gone : Gone salt is_leaf kids placement acked n p processed k
      processed-Gone = record {
        told = λ o h a.
            facts.delivered o (ap (λ v. elem o (write_set salt v k)) pe ∙ h)
              (ap (λ x. contains x o) (facts.adds.grows.acked ∙ ae) ∙ a);
        looked =
            subst
              (λ w.
                (is_leaf k ≡ true)
                ⊎ (((w ≡ n) × (elem k processed.mark.visited ≡ true))
                    ⊎ ((w ≢ n)
                        × ((elem k ((waiting w processed.mark).expand) ≡ true)
                            ⊎ (was_forwarded w k p.mark.forward ≡ true)))))
              worker-home facts.handled;
      }

      pub processed-Carries :
          p.batch ≡ k ∷ ks → Carries salt is_leaf kids placement acked n p processed fl fl
      processed-Carries b =
          Carries-Grows salt is_leaf kids placement acked n p processed fl facts.adds.grows (λ a h.
            elim h [
              | inl q ↦ inl (inl (facts.adds.grows.queue a q))
              | inr i ↦ elim (cons-elem a k ks (ap (λ x. elem a x) (sym b) ∙ i)) [
                | inl e ↦ inr (
                    subst (λ x. Gone salt is_leaf kids placement acked n p processed x) (sym e)
                      processed-Gone)
                | inr r ↦ inl (inr r)
              ]
            ])

      Expanded-children :
          (f : (found ≡ none) ⊎ (found ≡ some (kids k)))
          → Expanded found processed.mark
          → (processed.mark.missing ≢ [])
            ⊎ ((x : ℕ) → elem x (kids k) ≡ true → elem x processed.mark.queue ≡ true)
      Expanded-children (inl f) e = inl (subst (λ o. Expanded o processed.mark) f e)
      Expanded-children (inr f) e = inr (subst (λ o. Expanded o processed.mark) f e)

      pub processed-News :
          p.batch ≡ k ∷ ks
          → (found ≡ none) ⊎ (found ≡ some (kids k))
          → News salt is_leaf kids placement acked p processed roots roots
      processed-News b f = record {
        new_visited = λ a h. elim (facts.adds.new_visited a h) [
          | inl o ↦ inl o
          | inr (e, x) ↦ inr (
              subst
                (λ i.
                  (processed.mark.missing ≢ [])
                  ⊎ ((y : ℕ) → elem y (kids i) ≡ true → elem y processed.mark.queue ≡ true))
                (sym e) (Expanded-children f x))
        ];
        new_forward = facts.adds.new_forward;
        new_root = λ a h. inl h;
        missing = facts.adds.grows.missing;
        placement_same = facts.adds.grows.placement;
        acked_same = facts.adds.grows.acked;
        busy = λ h. elim h [
          | inl e ↦ let z : k ∷ ks ≡ [] = sym b ∙ e in cc
          | inr e ↦ inr (λ z. e (sym facts.adds.grows.busy ∙ z))
        ];
      }
