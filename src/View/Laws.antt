-- ===== src/View/Laws.antt =====
-- Laws of the view's order, quorums and membership lists.
use dstore.Prelude.{
  ◌+◌, ◌≤◌, ◌<◌, ◌≡◌, Bool, true, ◌&&◌, List, [], ◌∷◌, arith, length, count, Bool-cases, inl, inr,
}

-- Two tests on voters that each pass at a quorum pass together at some voter, or the list is shorter
-- than it is: the counts overlap.
pub count_overlap {ℓ} :
    {A : Type ℓ} (p q : A → Bool) (xs : List A)
    → count p xs + count q xs ≤ length xs + count (λ x. p x && q x) xs
count_overlap p q [] = omega arith
count_overlap p q (x ∷ xs) = ground (arith, count_overlap p q xs)

-- A test that passes somewhere has an entry where it passes.
pub count_pos {ℓ} :
    {A : Type ℓ} (p : A → Bool) (xs : List A) → 0 < count p xs → (x : A) × (p x ≡ true)
count_pos p [] h = absurd (omega arith)
count_pos p (x ∷ xs) h = elim (Bool-cases (p x)) [
  | inl e ↦ (x, e)
  | inr e ↦ count_pos p xs (ground arith)
]
