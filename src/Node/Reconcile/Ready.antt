-- ===== src/Node/Reconcile/Ready.antt =====
-- node/reconcile.go: when an owner offers a key in a transition (rankAmong and the rule of reconcilePack).
use mathlib.Core.Path.{subst}
use dstore.Prelude.{
  ℕ, ◌+◌, ◌-◌, ◌*◌, ◌≡◌, ◌≤◌, ◌<◌, refl, sym, ◌∙◌, ap, ◌⊎◌, inl, inr, Bool, true, false, ◌&&◌, List,
  [], ◌∷◌, ◌++◌, leb, ◌==◌, ==_iff, if◌then◌else◌, elem, length, arith, cons-elem, elem-left,
  elem-right, elem-head,
}
use dstore.View.{Pending, contains}
use dstore.Node.Reconcile.{rank_from, rank_among, is_ready, all_primary_done}

-- The owners that take part, after those in `above`.
abbrev taking_part : List ℕ → List ℕ → List ℕ → List ℕ
taking_part above parts [] = above
taking_part above parts (o ∷ os) =
    taking_part (if elem o parts then above ++ o ∷ [] else above) parts os

rank_if :
    (b : Bool) (x y z : ℕ × List ℕ)
    → (b ≡ true → x ≡ z)
    → (b ≡ false → y ≡ z)
    → (if b then x else y) ≡ z
rank_if true x y z f g = f refl
rank_if false x y z f g = g refl

-- The rank of an owner that takes part is one more than the number of those before it that do.
rank_from-at :
    (above parts xs ys : List ℕ) (self : ℕ)
    → elem self xs ≡ false
    → elem self parts ≡ true
    → rank_from above parts self (xs ++ self ∷ ys)
      ≡ (length (taking_part above parts xs) + 1, taking_part above parts xs)
unfolding rank_from contains
rank_from-at above parts [] ys self n p =
    let here : (self == self) ≡ true = (==_iff self self).1 refl in
    rank_if (elem self parts && self == self) _ _ _ (λ _. refl) (λ f. absurd (ground arith))
rank_from-at above parts (o ∷ os) ys self n p =
    let other : (o == self) ≡ false = ground arith in
    rank_if (elem o parts && o == self) _ _ _ (λ t. absurd (ground arith))
      (λ _.
        rank_from-at (if elem o parts then above ++ o ∷ [] else above) parts os ys self
          (ground arith) p)

list_if :
    (P : List ℕ → Type 0) (b : Bool) (x y : List ℕ)
    → (b ≡ true → P x)
    → (b ≡ false → P y)
    → P (if b then x else y)
list_if P true x y f g = f refl
list_if P false x y f g = g refl

elem-taking_part :
    (above parts xs : List ℕ) (a : ℕ)
    → (elem a above ≡ true) ⊎ ((elem a xs ≡ true) × (elem a parts ≡ true))
    → elem a (taking_part above parts xs) ≡ true
elem-taking_part above parts [] a (inl h) = h
elem-taking_part above parts [] a (inr (m, p)) = cc
elem-taking_part above parts (o ∷ os) a (inl h) =
    elem-taking_part (if elem o parts then above ++ o ∷ [] else above) parts os a (
      inl (
        list_if (λ l. elem a l ≡ true) (elem o parts) _ _ (λ _. elem-left a above (o ∷ []) h)
          (λ _. h)))
elem-taking_part above parts (o ∷ os) a (inr (m, p)) = elim (cons-elem a o os m) [
  | inr n ↦
      elem-taking_part (if elem o parts then above ++ o ∷ [] else above) parts os a (inr (n, p))
  | inl e ↦ elem-taking_part (if elem o parts then above ++ o ∷ [] else above) parts os a (
      inl (
        list_if (λ l. elem a l ≡ true) (elem o parts) _ _
          (λ _. elem-right a above (o ∷ []) (elem-head a o [] e))
          (λ f. let same : elem o parts ≡ true = subst (λ x. elem x parts ≡ true) e p in cc)))
]

all_primary_done-elem :
    (done xs : List ℕ) (a : ℕ)
    → all_primary_done done xs ≡ true
    → elem a xs ≡ true
    → elem a done ≡ true
unfolding all_primary_done contains
all_primary_done-elem done [] a h m = cc
all_primary_done-elem done (x ∷ xs) a h m = elim (cons-elem a x xs m) [
  | inl e ↦ subst (λ y. elem y done ≡ true) (sym e) (ground arith)
  | inr n ↦ all_primary_done-elem done xs a (ground arith) n
]

some-length : (xs : List ℕ) (a : ℕ) → elem a xs ≡ true → 1 ≤ length xs
some-length [] a h = cc
some-length (x ∷ xs) a h = omega arith

ready-done :
    (delta now : ℕ) (p : Pending) (n : ℕ) (above : List ℕ)
    → 1 ≤ n
    → now - p.frozen_at < delta
    → is_ready delta now p (n + 1, above) ≡ true
    → all_primary_done p.primary_done above ≡ true
unfolding is_ready
ready-done delta now p n above h lt r =
    let step : delta ≤ (n + 1 - 1) * delta = grind arith in
    let late : leb ((n + 1 - 1) * delta) (now - p.frozen_at) ≡ false = ground (arith, step, lt) in
    ground (arith, late)

-- Until `delta` has passed since the transition was frozen, an owner that takes part offers a key only where
-- every owner before it that takes part has reported its own pass done.
pub is_ready-rank_among :
    (delta now : ℕ) (p : Pending) (parts xs ys : List ℕ) (self a : ℕ)
    → elem self xs ≡ false
    → elem self parts ≡ true
    → elem a xs ≡ true
    → elem a parts ≡ true
    → now - p.frozen_at < delta
    → is_ready delta now p (rank_among (xs ++ self ∷ ys) self parts) ≡ true
    → elem a p.primary_done ≡ true
unfolding rank_among
is_ready-rank_among delta now p parts xs ys self a n mine m part lt r =
    let above = taking_part [] parts xs in
    let there : elem a above ≡ true = elem-taking_part [] parts xs a (inr (m, part)) in
    all_primary_done-elem p.primary_done above a
      (ready-done delta now p (length above) above (some-length above a there) lt
        (ap (is_ready delta now p) (sym (rank_from-at [] parts xs ys self n mine)) ∙ r))
      there
