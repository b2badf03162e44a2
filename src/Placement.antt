-- ===== src/Placement.antt =====
-- placement/placement.go: weighted rendezvous hashing over slots. Words wrap at 2 ^ 64; a [32]byte key or
-- id is the number that its bytes spell. BLAKE3, which gives the salt of an id, is the parameter `salt`.
-- sort.SliceStable and sort.Slice are insertion sorts: on what the code sorts, no two entries tie.
pub mod Word
pub mod Order
pub mod Owners
use Prim.Native.Nat.{bit_xor, compare as compare_ℕ}
use dstore.Prelude.{
  ℕ, zero, suc, ◌+◌, ◌-◌, ◌*◌, ◌/◌, ◌%◌, ◌^◌, Ordering, Bool, true, false, ◌||◌, not, Option, none,
  some, List, [], ◌∷◌, ◌++◌, map, ltb, leb, ◌==◌, if◌then◌else◌, length, any,
}
use dstore.Bytes.{Bytes, be_bytes, beq_bytes}

pub record Member : Type 0 where
  pub id : ℕ
  pub weight : ℕ
  pub zone : Bytes

-- Slot: the top 20 bits of the last 8 bytes of the key.
unfoldable pub slot : ℕ → ℕ
slot key = key % 2 ^ 64 / 2 ^ (64 - 20)

-- Fmix64; its result is a uint64.
unfoldable pub fmix64 : ℕ → ℕ
fmix64 x =
    let x1 = bit_xor x (x / 2 ^ 33) in
    let x2 = x1 * 0xff51afd7ed558ccd % 2 ^ 64 in
    let x3 = bit_xor x2 (x2 / 2 ^ 33) in
    let x4 = x3 * 0xc4ceb9fe1a85ec53 % 2 ^ 64 in bit_xor x4 (x4 / 2 ^ 33) % 2 ^ 64

-- bits.Len64, for numbers below 2 ^ fuel.
unfoldable pub bit_len : ℕ → ℕ → ℕ
bit_len zero x = 0
bit_len (suc fuel) x = let rest = bit_len fuel (x / 2) in if x == 0 then 0 else rest + 1

-- bits.Mul64
unfoldable pub mul_hi : ℕ → ℕ → ℕ
mul_hi a b = a * b / 2 ^ 64

unfoldable pub mul_lo : ℕ → ℕ → ℕ
mul_lo a b = a * b % 2 ^ 64

-- The rounds of Log2Fix with `k` left: the mantissa and the bits found so far. The bit of a round is not
-- set before, so `|=` adds it; so it is with `hi<<1 | lo>>63`.
unfoldable pub log2_rounds : ℕ → ℕ → ℕ → ℕ
unfolding mul_hi mul_lo
log2_rounds zero m f = f
log2_rounds (suc k) m f =
    let hi = mul_hi m m in
    let lo = mul_lo m m in
    let set = log2_rounds k hi (f + 2 ^ k) in
    let clear = log2_rounds k (hi * 2 % 2 ^ 64 + lo / 2 ^ 63) f in
    if leb (2 ^ 63) hi then set else clear

-- Log2Fix; none is its panic.
unfoldable pub log2_bits : ℕ → ℕ
unfolding bit_len log2_rounds
log2_bits x = let i = bit_len 64 x - 1 in i * 2 ^ 32 + log2_rounds 32 (x * 2 ^ (63 - i) % 2 ^ 64) 0

unfoldable pub log2_fix : ℕ → Option ℕ
unfolding log2_bits
log2_fix x = if x == 0 then none else some (log2_bits x)

-- 64<<32 less a logarithm, in a uint64.
unfoldable pub less_log : Option ℕ → Option ℕ
less_log none = none
less_log (some y) = some ((64 * 2 ^ 32 + 2 ^ 64 - y) % 2 ^ 64)

-- L; none where it panics.
unfoldable pub checked_score : ℕ → ℕ → Option ℕ
unfolding fmix64 log2_fix less_log
checked_score sl salt =
    let h = fmix64 (bit_xor sl salt) in
    if h == 2 ^ 64 - 1 then some 0 else less_log (log2_fix ((h + 1) % 2 ^ 64))

abbrev pub returned : Option ℕ → ℕ
returned none = 0
returned (some l) = l

-- What L returns to Rank; Placement/Word.antt is about its panic.
unfoldable pub score : ℕ → ℕ → ℕ
unfolding checked_score
score sl salt = returned (checked_score sl salt)

-- less, through the two halves of the products.
unfoldable pub less : Member → Member → ℕ → ℕ → Bool
unfolding mul_hi mul_lo
less a b la lb =
    if not (mul_hi a.weight lb == mul_hi b.weight la)
    then ltb (mul_hi b.weight la) (mul_hi a.weight lb)
    else if not (mul_lo a.weight lb == mul_lo b.weight la)
    then ltb (mul_lo b.weight la) (mul_lo a.weight lb)
    else ltb a.id b.id

-- A member with its place in the input and its score: what `Rank` sorts.
pub record Entry : Type 0 where
  pub index : ℕ
  pub member : Member
  pub l : ℕ

abbrev pub ranks_above : Entry → Entry → Bool
ranks_above a b = less a.member b.member a.l b.l

abbrev pub id_below : Entry → Entry → Bool
id_below a b = ltb a.member.id b.member.id

-- A stable insertion: before the first entry that the new one is above.
unfoldable pub insert_by : (Entry → Entry → Bool) → Entry → List Entry → List Entry
insert_by above e [] = e ∷ []
insert_by above e (x ∷ xs) = if above x e then x ∷ insert_by above e xs else e ∷ x ∷ xs

unfoldable pub sort_by : (Entry → Entry → Bool) → List Entry → List Entry
unfolding insert_by
sort_by above [] = []
sort_by above (x ∷ xs) = insert_by above x (sort_by above xs)

module _ (salt : ℕ → ℕ) where
  -- The first loop of `Rank`: the members with a weight, scored, and those without, from place `i` on.
  unfoldable pub weighted : ℕ → ℕ → List Member → List Entry
  weighted sl i [] = []
  weighted sl i (m ∷ ms) =
      let rest = weighted sl (i + 1) ms in
      if m.weight == 0
      then rest
      else record { index = i; member = m; l = score sl (salt m.id) } ∷ rest

  unfoldable pub weightless : ℕ → List Member → List Entry
  weightless i [] = []
  weightless i (m ∷ ms) =
      let rest = weightless (i + 1) ms in
      if m.weight == 0 then record { index = i; member = m; l = 0 } ∷ rest else rest

  -- Rank, as entries; the code keeps their places.
  unfoldable pub rank : ℕ → List Member → List Entry
  unfolding weighted weightless sort_by
  rank sl ms = sort_by ranks_above (weighted sl 0 ms) ++ sort_by id_below (weightless 0 ms)

-- A member's failure domain.
unfoldable pub domain : Member → Bytes
domain m = if length m.zone == 0 then be_bytes 32 m.id else m.zone

-- The loop of `Owners` over the ranking, with the zones taken and the number of picks.
unfoldable pub pick : ℕ → ℕ → List Bytes → List Entry → List Entry
unfolding domain
pick r n zones [] = []
pick r n zones (e ∷ es) =
    let skip = pick r n zones es in
    let take = e ∷ pick r (n + 1) (domain e.member ∷ zones) es in
    if leb r n || e.member.weight == 0
    then []
    else if any (λ z. beq_bytes z (domain e.member)) zones
    then skip
    else take

-- Owners
unfoldable pub owners : (ℕ → ℕ) → ℕ → ℕ → List Member → List Entry
unfolding rank pick
owners salt sl r ms = pick r 0 [] (rank salt sl ms)

-- OwnerIDs, RankIDs, IsOwner. The tables only cache what they compute.
unfoldable pub owner_ids : (ℕ → ℕ) → ℕ → List Member → ℕ → List ℕ
unfolding owners slot
owner_ids salt r ms key = map (λ (e : Entry). e.member.id) (owners salt (slot key) r ms)

unfoldable pub rank_ids : (ℕ → ℕ) → List Member → ℕ → List ℕ
unfolding rank slot
rank_ids salt ms key = map (λ (e : Entry). e.member.id) (rank salt (slot key) ms)

unfoldable pub is_owner : (ℕ → ℕ) → ℕ → List Member → ℕ → ℕ → Bool
unfolding owners slot
is_owner salt r ms key id = any (λ (e : Entry). e.member.id == id) (owners salt (slot key) r ms)
