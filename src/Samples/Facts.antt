-- ===== src/Samples/Facts.antt =====
-- The lemmas of the parts at small inputs.
use dstore.Prelude.{
  ℕ, ◌≤◌, ◌<◌, ◌≡◌, ◌⊎◌, refl, inl, true, false, some, List, [], ◌∷◌, ◌*◌, ◌^◌, ◌-◌, length, All,
  if◌then◌else◌, arith, ltb, ◌==◌,
}
use dstore.Bytes.{be_bytes, beq_bytes, compare_bytes}
use dstore.Paxos.Ballot
use dstore.Paxos.Ballot.{Ballot, IsWord, parse_ballot}
use dstore.Paxos.Ballot.Encoding.{parse_ballot-bytes, compare_bytes-bytes}
use dstore.Paxos.Ballot.{same}
use dstore.Placement.{
  Member, Entry, owners, rank, pick, domain, less, weighted, weightless, insert_by, sort_by, score,
  fmix64, log2_fix, checked_score, log2_rounds, bit_len, mul_hi, mul_lo,
}
use dstore.Placement.Owners.{Spread, taken, domains, owners-Spread, owners-covers}
use Prim.Native.Nat.{bit_xor}
use dstore.Placement.Word.{score_range}
use dstore.Placement.Order.{less_products}

abbrev low : Ballot
low = record { counter = 3; proposer = 300 }

abbrev high : Ballot
high = record { counter = 3; proposer = 70000 }

low-IsWord : IsWord low
low-IsWord = record { counter_range = omega arith; proposer_range = omega arith }

high-IsWord : IsWord high
high-IsWord = record { counter_range = omega arith; proposer_range = omega arith }

parse_ballot-bytes_example : parse_ballot (Ballot.bytes high) ≡ some high
parse_ballot-bytes_example = parse_ballot-bytes high high-IsWord

compare_bytes-bytes_example :
    compare_bytes (Ballot.bytes low) (Ballot.bytes high) ≡ Ballot.compare low high
compare_bytes-bytes_example = compare_bytes-bytes low high low-IsWord high-IsWord

abbrev same_zone : List Member
same_zone =
    record { id = 1; weight = 4; zone = 97 ∷ [] }
    ∷ record { id = 2; weight = 8; zone = 97 ∷ [] }
    ∷ []

abbrev salt_of : ℕ → ℕ
salt_of id = id * 1000

placing : ℕ
unfolding owners rank pick domain less weighted weightless insert_by sort_by score fmix64 log2_fix
    log2_rounds bit_len mul_hi mul_lo be_bytes beq_bytes
placing = 0

owners-Spread_example :
    (length (owners salt_of 5 2 same_zone) ≤ 2)
    × Spread [] (owners salt_of 5 2 same_zone)
    × All (λ (e : Entry). 0 < e.member.weight) (owners salt_of 5 2 same_zone)
owners-Spread_example = owners-Spread salt_of 5 2 same_zone

owners-covers_example : taken (domains (owners salt_of 5 2 same_zone)) (97 ∷ []) ≡ true
unfolding placing
owners-covers_example =
    owners-covers salt_of 5 2 same_zone (record { id = 1; weight = 4; zone = 97 ∷ [] }) (inl refl)
      (omega arith) (omega arith)

less_products_example :
    less
      (record { id = 1; weight = 4; zone = [] })
      (record { id = 2; weight = 8; zone = [] })
      100
      50
    ≡ (if ltb (8 * 100) (4 * 50) then true else if 4 * 50 == 8 * 100 then ltb 1 2 else false)
less_products_example =
    less_products (record { id = 1; weight = 4; zone = [] })
      (record { id = 2; weight = 8; zone = [] }) 100 50

score_range_example :
    (checked_score 5 1000 ≡ some (score 5 1000))
    × ((score 5 1000 ≤ 64 * 2 ^ 32) × ((0 < score 5 1000) ⊎ (fmix64 (bit_xor 5 1000) ≡ 2 ^ 64 - 1)))
score_range_example = score_range 5 1000
