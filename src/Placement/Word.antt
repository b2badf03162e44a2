-- ===== src/Placement/Word.antt =====
-- The fixed-point logarithm and the score stay in range.
use dstore.Prelude.{
  ℕ, zero, suc, ◌+◌, ◌-◌, ◌*◌, ◌/◌, ◌%◌, ◌^◌, ◌≤◌, ◌<◌, ◌≡◌, refl, inl, inr, Bool, true, false,
  Option, none, some, sym, ap, ◌∙◌, ◌==◌, if◌then◌else◌, arith, ==_iff, ◌⊎◌,
}
use native.Mathlib.Nat.{pow-suc}
use mathlib.Core.Path.{subst}
use Prim.Native.Nat.{bit_xor}
use dstore.Placement.{
  bit_len, mul_hi, mul_lo, log2_rounds, log2_bits, log2_fix, less_log, checked_score, returned,
  score, fmix64,
}

bit_len-le : (fuel x : ℕ) → bit_len fuel x ≤ fuel
unfolding bit_len
bit_len-le zero x = omega arith
bit_len-le (suc fuel) x = ground (arith, bit_len-le fuel (x / 2))

log2_rounds-lt : (k m f : ℕ) → log2_rounds k m f < f + 2 ^ k
unfolding log2_rounds
log2_rounds-lt zero m f = omega arith
log2_rounds-lt (suc k) m f = ground (
  arith,
  pow-suc 2 k,
  log2_rounds-lt k (mul_hi m m) (f + 2 ^ k),
  log2_rounds-lt k (mul_hi m m * 2 % 2 ^ 64 + mul_lo m m / 2 ^ 63) f,
)

fixed-lt : (i f : ℕ) → i ≤ 64 → f < 2 ^ 32 → (i - 1) * 2 ^ 32 + f < 64 * 2 ^ 32
fixed-lt i f hi hf = omega arith

-- The logarithm of a 64-bit word is below 64 in fixed point: the subtraction of `L` never wraps.
log2_bits-lt : (x : ℕ) → log2_bits x < 64 * 2 ^ 32
unfolding log2_bits
log2_bits-lt x =
    fixed-lt (bit_len 64 x) (log2_rounds 32 (x * 2 ^ (63 - (bit_len 64 x - 1)) % 2 ^ 64) 0)
      (bit_len-le 64 x) (log2_rounds-lt 32 (x * 2 ^ (63 - (bit_len 64 x - 1)) % 2 ^ 64) 0)

-- A value that L returns, where `top` is whether the hash is the largest word.
abbrev InRange : Bool → Option ℕ → Type 0
InRange top o = (l : ℕ) × ((o ≡ some l) × ((l ≤ 64 * 2 ^ 32) × ((0 < l) ⊎ (top ≡ true))))

-- The wrap-around of the subtraction takes back what it adds.
wrap_lem : (y : ℕ) → y < 64 * 2 ^ 32 → (64 * 2 ^ 32 + 2 ^ 64 - y) % 2 ^ 64 ≡ 64 * 2 ^ 32 - y
wrap_lem y h = omega arith

log_if :
    (b top : Bool) (y : ℕ)
    → b ≡ false
    → y < 64 * 2 ^ 32
    → InRange top (less_log (if b then none else some y))
unfolding less_log
log_if true top y e h = cc
log_if false top y e h =
    (64 * 2 ^ 32 - y, (ap (λ x. some x) (wrap_lem y h), (omega arith, inl (omega (arith, h)))))

less_log-InRange : (top : Bool) (x : ℕ) → (x == 0) ≡ false → InRange top (less_log (log2_fix x))
unfolding log2_fix
less_log-InRange top x e = log_if (x == 0) top (log2_bits x) e (log2_bits-lt x)

next_word : (h : ℕ) → h < 2 ^ 64 → (h == 2 ^ 64 - 1) ≡ false → ((h + 1) % 2 ^ 64 == 0) ≡ false
next_word h lt f = ground (arith, lt, f)

score_if :
    (b : Bool) (o : Option ℕ) → (b ≡ false → InRange b o) → InRange b (if b then some 0 else o)
score_if true o h = (0, (refl, (omega arith, inr refl)))
score_if false o h = h refl

fmix64-lt : (x : ℕ) → fmix64 x < 2 ^ 64
unfolding fmix64
fmix64-lt x = omega arith

checked_score-InRange :
    (sl salt : ℕ) → InRange (fmix64 (bit_xor sl salt) == 2 ^ 64 - 1) (checked_score sl salt)
unfolding checked_score
checked_score-InRange sl salt =
    let h = fmix64 (bit_xor sl salt) in
    score_if (h == 2 ^ 64 - 1) (less_log (log2_fix ((h + 1) % 2 ^ 64))) (λ f.
      less_log-InRange (h == 2 ^ 64 - 1) ((h + 1) % 2 ^ 64)
        (next_word h (fmix64-lt (bit_xor sl salt)) f))

-- L does not panic and returns a score that is at most 64 in fixed point, and positive unless the hash is
-- the largest word, whatever the slot and the salt.
pub score_range :
    (sl salt : ℕ)
    → (checked_score sl salt ≡ some (score sl salt))
      × ((score sl salt ≤ 64 * 2 ^ 32)
          × ((0 < score sl salt) ⊎ (fmix64 (bit_xor sl salt) ≡ 2 ^ 64 - 1)))
unfolding score
score_range sl salt =
    let h = fmix64 (bit_xor sl salt) in
    let (l, (e, (le, pos))) = checked_score-InRange sl salt in
    let same : l ≡ score sl salt = ap returned (sym e) in
    (
      e ∙ ap (λ x. some x) same,
      (
        subst (λ x. x ≤ 64 * 2 ^ 32) same le,
        elim pos [
          | inl p ↦ inl (subst (λ x. 0 < x) same p)
          | inr t ↦ inr ((==_iff h (2 ^ 64 - 1)).0 t)
        ],
      ),
    )
