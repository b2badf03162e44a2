-- ===== src/Samples/Choices.antt =====
-- Batches and owner orders of a client at small inputs.
use mathlib.Core.List.{Permᴰ}
use dstore.Prelude.{
  ℕ, ◌*◌, ◌≡◌, false, Option, none, some, List, [], ◌∷◌, map, All, if◌then◌else◌, ◌==◌,
}
use dstore.Client.Batch.{batches, concat, Fits, batches-Fits}
use dstore.Client.Rank.{PathInfo, InOrder, places, rank_owners, rank_owners-Ordered}

abbrev sizes : ℕ → ℕ
sizes k = k * 10

batches-Fits_example :
    (concat sizes 100 2 (batches sizes 100 2 (1 ∷ 20 ∷ 3 ∷ 4 ∷ 5 ∷ [])) ≡ 1 ∷ 20 ∷ 3 ∷ 4 ∷ 5 ∷ [])
    × All (Fits sizes 100 2) (batches sizes 100 2 (1 ∷ 20 ∷ 3 ∷ 4 ∷ 5 ∷ []))
batches-Fits_example = batches-Fits sizes 100 2 (1 ∷ 20 ∷ 3 ∷ 4 ∷ 5 ∷ [])

abbrev penalties : ℕ → ℕ
penalties id = if id == 2 then 1 else 0

abbrev paths : ℕ → Option PathInfo
paths id = if id == 3 then some (record { direct = false; rtt = 7000000 }) else none

rank_owners-Ordered_example :
    (ranked : List (ℕ × ℕ)) × InOrder penalties paths ranked
    × Permᴰ ranked (places 0 (2 ∷ 3 ∷ 4 ∷ []))
    × (rank_owners penalties paths (2 ∷ 3 ∷ 4 ∷ []) ≡ map (λ (p : ℕ × ℕ). p.1) ranked)
rank_owners-Ordered_example = rank_owners-Ordered penalties paths (2 ∷ 3 ∷ 4 ∷ [])
