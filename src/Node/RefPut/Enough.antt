-- ===== src/Node/RefPut/Enough.antt =====
-- A walk without a shortfall has found the whole tree at enough owners.
use dstore.Prelude.{
  ℕ, ◌≡◌, refl, sym, ◌∙◌, ap, ◌⊎◌, inl, inr, ◌≤◌, Bool, true, false, ◌||◌, Option, List, [], ◌∷◌,
  elem, count, length, arith, elem-head,
}
use dstore.View.{View}
use dstore.View.Tables.{current_owners, pending_owners}
use dstore.Node.RefPut.{
  Fetched, found, Walk, walked, least, holds, short_among, is_short, walk_complete, no_walk,
}
use dstore.Node.RefPut.Checked.{IsHeld, Under, Good}
use dstore.Node.RefPut.Ends.{levels-Ok, Under-seen}

-- In a round of the negotiation that asked about the key, enough owners under the nodes, and under the pending
-- nodes where there are some, said that they hold it.
pub record HeldByEnough (salt : ℕ → ℕ) (v : View) (ask : ℕ → ℕ → List ℕ → Option (List ℕ)) (k : ℕ)
    : Type 0 where
  pub round : ℕ
  pub keys : List ℕ
  pub asked_about : elem k keys ≡ true
  pub owners :
      least v.min_replicas (length (current_owners salt v k))
      ≤ count (holds salt v ask round keys k) (current_owners salt v k)
  pub pending :
      least v.min_replicas (length (pending_owners salt v.pending k))
      ≤ count (holds salt v ask round keys k) (pending_owners salt v.pending k)

module _ (salt : ℕ → ℕ) (v : View) (ask : ℕ → ℕ → List ℕ → Option (List ℕ)) where
  either-false : (a b : Bool) → (a || b) ≡ false → (a ≡ false) × (b ≡ false)
  either-false true b h = cc
  either-false false b h = (refl, h)

  short_among-count :
      (round : ℕ) (keys : List ℕ) (k : ℕ) (os : List ℕ)
      → short_among salt v ask round keys k os ≡ false
      → least v.min_replicas (length os) ≤ count (holds salt v ask round keys k) os
  unfolding short_among
  short_among-count round keys k os h = ground arith

  IsHeld-HeldByEnough : (k : ℕ) → IsHeld salt v ask k → HeldByEnough salt v ask k
  unfolding is_short
  IsHeld-HeldByEnough k (round, (keys, (e, h))) =
      let (a, b) =
        either-false (short_among salt v ask round keys k (current_owners salt v k))
          (short_among salt v ask round keys k (pending_owners salt v.pending k)) h in
      record {
        round = round;
        keys = keys;
        asked_about = e;
        owners = short_among-count round keys k (current_owners salt v k) a;
        pending = short_among-count round keys k (pending_owners salt v.pending k) b;
      }

  -- Where walkComplete returns with no shortfall, every key of the tree down to leaves and to cached keys is
  -- held by enough owners, and every key whose children the walk needs has been read.
  pub walk_complete-HeldByEnough :
      (is_leaf : ℕ → Bool) (fetch : ℕ → Fetched) (is_cached : ℕ → Bool) (children : ℕ → List ℕ)
      → ((k : ℕ) (ks : List ℕ) → fetch k ≡ found ks → ks ≡ children k)
      → (fuel root : ℕ) (w : Walk) (k : ℕ)
      → walk_complete salt v ask is_leaf fetch is_cached fuel root ≡ walked w
      → w.shortfall ≡ 0
      → Under is_leaf children is_cached root k
      → HeldByEnough salt v ask k
        × ((is_leaf k ≡ true) ⊎ ((is_cached k ≡ true) ⊎ ((kids : List ℕ) × (fetch k ≡ found kids))))
  unfolding walk_complete
  walk_complete-HeldByEnough is_leaf fetch is_cached children reads fuel root w k e z u =
      let start : Good salt v ask is_leaf fetch is_cached root [] (root ∷ []) no_walk = record {
        starts = inr (elem-head root root [] refl);
        checked = λ c h. cc;
        opened = λ c h. cc;
        todo_new = λ c h. cc;
      } in
      let (_, f) =
        levels-Ok salt v ask is_leaf fetch is_cached root fuel (root ∷ []) no_walk w e z in
      let (g, t) = f start in
      let h = Under-seen salt v ask is_leaf fetch is_cached root children reads w g t u in
      let gone : elem k w.to_check ≡ true → ⊥ =
        λ i. let e : elem k [] ≡ true = ap (λ x. elem k x) (sym t) ∙ i in cc in
      (
        elim (g.checked k h) [ inl i ↦ absurd (gone i) | inr i ↦ IsHeld-HeldByEnough k i ],
        elim (g.opened k h) [
          | inl i ↦ inl i
          | inr (inl i) ↦ inr (inl i)
          | inr (inr (inl i)) ↦ cc
          | inr (inr (inr (inl (u, i)))) ↦ absurd (gone i)
          | inr (inr (inr (inr (ks, (e, i))))) ↦ inr (inr (ks, e))
        ],
      )
