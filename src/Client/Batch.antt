-- ===== src/Client/Batch.antt =====
-- client/batch.go: batches. Sizes are sums of ints, which do not overflow here. The part already built is
-- `cur`, of `bytes` bytes.
use mathlib.Core.Path.{subst}
use mathlib.Core.List.{append_assoc}
use dstore.Prelude.{
  ℕ, suc, ◌+◌, ◌≤◌, ◌<◌, ◌≡◌, refl, ◌⊎◌, inl, inr, Bool, true, false, ◌&&◌, ◌||◌, List, [], ◌∷◌,
  ◌++◌, length, length-append, All, ltb, leb, if◌then◌else◌, arith, Bool-cases, lt→ltb,
}

positive : (n : ℕ) → ltb 0 (suc n) ≡ true
positive n = lt→ltb 0 (suc n) (omega arith)

module _ (size : ℕ → ℕ) (max_bytes max_keys : ℕ) where
  unfoldable pub batches_from : List ℕ → ℕ → List ℕ → List (List ℕ)
  batches_from cur bytes [] = if ltb 0 (length cur) then cur ∷ [] else []
  batches_from cur bytes (k ∷ ks) =
      let flush = cur ∷ batches_from (k ∷ []) (size k) ks in
      let keep = batches_from (cur ++ k ∷ []) (bytes + size k) ks in
      if ltb 0 (length cur) && (ltb max_bytes (bytes + size k) || leb max_keys (length cur))
      then flush
      else keep

  unfoldable pub batches : List ℕ → List (List ℕ)
  unfolding batches_from
  batches keys = batches_from [] 0 keys

  abbrev pub total : List ℕ → ℕ
  total [] = 0
  total (k ∷ ks) = size k + total ks

  -- A batch that may be sent.
  abbrev pub Fits : List ℕ → Type 0
  Fits b =
      (0 < length b)
      × ((length b ≤ max_keys) ⊎ (length b ≡ 1))
      × ((total b ≤ max_bytes) ⊎ (length b ≡ 1))

  total-append : (xs : List ℕ) (k : ℕ) → total (xs ++ k ∷ []) ≡ total xs + size k
  total-append [] k = omega arith
  total-append (x ∷ xs) k = omega (arith, total-append xs k)

  Fits-one : (k : ℕ) → Fits (k ∷ [])
  Fits-one k = (omega arith, inr refl, inr refl)

  abbrev full : List ℕ → ℕ → Bool
  full cur k =
      ltb 0 (length cur) && (ltb max_bytes (total cur + size k) || leb max_keys (length cur))

  -- The test of the loop, for the batch that would grow.
  grown : (cur : List ℕ) (k : ℕ) → full cur k ≡ false → Fits (cur ++ k ∷ [])
  grown [] k h = Fits-one k
  grown (x ∷ xs) k h =
      let n = length-append xs (k ∷ []) in
      let t = total-append xs k in (omega arith, inl (ground arith), inl (ground arith))

  full-Fits : (cur : List ℕ) (k : ℕ) → (length cur ≡ 0) ⊎ Fits cur → full cur k ≡ true → Fits cur
  full-Fits cur k (inl e) h = absurd (ground arith)
  full-Fits cur k (inr f) h = f

  batches_from-All :
      (cur ks : List ℕ) → (length cur ≡ 0) ⊎ Fits cur → All Fits (batches_from cur (total cur) ks)
  unfolding batches_from
  batches_from-All [] [] i = tt
  batches_from-All (x ∷ xs) [] (inl e) = absurd (omega arith)
  batches_from-All (x ∷ xs) [] (inr f) = rw (positive (length xs)) (f, tt)
  batches_from-All cur (k ∷ ks) i = elim (Bool-cases (full cur k)) [
    | inl t ↦ rw t (
      full-Fits cur k i t,
      subst (λ (n : ℕ). All Fits (batches_from (k ∷ []) n ks)) (omega arith)
          (batches_from-All (k ∷ []) ks (inr (Fits-one k))),
    )
    | inr f ↦ rw f (
        subst (λ (n : ℕ). All Fits (batches_from (cur ++ k ∷ []) n ks)) (total-append cur k)
          (batches_from-All (cur ++ k ∷ []) ks (inr (grown cur k f))))
  ]

  abbrev pub concat : List (List ℕ) → List ℕ
  concat [] = []
  concat (b ∷ bs) = b ++ concat bs

  concat-batches_from :
      (cur : List ℕ) (bytes : ℕ) (ks : List ℕ) → concat (batches_from cur bytes ks) ≡ cur ++ ks
  unfolding batches_from
  concat-batches_from [] bytes [] = refl
  concat-batches_from (x ∷ xs) bytes [] = rw (positive (length xs)) refl
  concat-batches_from cur bytes (k ∷ ks) =
      elim (Bool-cases
        (ltb 0 (length cur) && (ltb max_bytes (bytes + size k) || leb max_keys (length cur)))) [
          | inl t ↦ rw (t, concat-batches_from (k ∷ []) (size k) ks) refl
          | inr f ↦
              rw (f, concat-batches_from (cur ++ k ∷ []) (bytes + size k) ks)
                (append_assoc cur (k ∷ []) ks)
        ]

  -- Batching splits the keys: the batches in order are the keys in order, every batch has a key, and no
  -- batch is over the limits on keys and bytes unless it is a single key.
  pub batches-Fits : (keys : List ℕ) → (concat (batches keys) ≡ keys) × All Fits (batches keys)
  unfolding batches
  batches-Fits keys = (concat-batches_from [] 0 keys, batches_from-All [] keys (inl refl))
