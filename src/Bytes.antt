-- ===== src/Bytes.antt =====
-- Byte strings (Go's []byte and string), fixed-size ids (Go's [32]byte) and the big-endian words of
-- Go's encoding/binary. A [32]byte id is the number that its bytes spell, most significant first;
-- `compare-be_bytes` is why comparing two ids byte by byte is comparing these numbers.
use Prim.Native.Nat.{compare}
use native.Mathlib.Nat.{pow-suc}
use dstore.Prelude.{
  ℕ, zero, suc, ◌+◌, ◌*◌, ◌/◌, ◌%◌, ◌^◌, ◌<◌, Ordering, ◌≡◌, refl, ◌∙◌, Bool, true, false, ◌&&◌,
  List, [], ◌∷◌, ◌++◌, arith, ◌==◌, length, length-append, ◌↔◌, sym,
}

abbrev pub Bytes : Type 0
Bytes = List ℕ

-- bytes.Equal
unfoldable pub beq_bytes : Bytes → Bytes → Bool
beq_bytes [] [] = true
beq_bytes (a ∷ xs) (b ∷ bs) = a == b && beq_bytes xs bs
beq_bytes _ _ = false

-- bytes.Compare
unfoldable pub compare_bytes : Bytes → Bytes → Ordering
compare_bytes [] [] = Ordering.eq
compare_bytes [] (b ∷ bs) = Ordering.lt
compare_bytes (a ∷ xs) [] = Ordering.gt
compare_bytes (a ∷ xs) (b ∷ bs) = elim (compare a b) [
  | Ordering.lt ↦ Ordering.lt
  | Ordering.gt ↦ Ordering.gt
  | Ordering.eq ↦ compare_bytes xs bs
]

-- The `n` lowest bytes of `x`, most significant first (binary.BigEndian.PutUint64 at n = 8).
unfoldable pub be_bytes : ℕ → ℕ → Bytes
be_bytes zero x = []
be_bytes (suc n) x = be_bytes n (x / 256) ++ (x % 256) ∷ []

-- The number that a byte string spells, after `acc` (binary.BigEndian.Uint64 from 0).
unfoldable pub be_value : ℕ → Bytes → ℕ
be_value acc [] = acc
be_value acc (b ∷ bs) = be_value (acc * 256 + b) bs

pub beq_bytes_iff : (a b : Bytes) → (beq_bytes a b ≡ true) ↔ (a ≡ b)
unfolding beq_bytes
beq_bytes_iff [] [] = (λ _. refl, λ _. refl)
beq_bytes_iff [] (b ∷ bs) = (λ h. cc, λ h. cc)
beq_bytes_iff (a ∷ xs) [] = (λ h. cc, λ h. cc)
beq_bytes_iff (a ∷ xs) (b ∷ bs) =
    let (f, g) = beq_bytes_iff xs bs in (λ h. ground arith, λ h. ground arith)

pub length-be_bytes : (n x : ℕ) → length (be_bytes n x) ≡ n
unfolding be_bytes
length-be_bytes zero x = refl
length-be_bytes (suc n) x =
    omega
      (arith, length-append (be_bytes n (x / 256)) ((x % 256) ∷ []), length-be_bytes n (x / 256))

be_value-append :
    (acc : ℕ) (xs bs : Bytes) → be_value acc (xs ++ bs) ≡ be_value (be_value acc xs) bs
unfolding be_value
be_value-append acc [] bs = refl
be_value-append acc (a ∷ xs) bs = be_value-append (acc * 256 + a) xs bs

quotient-lt : (n x : ℕ) → x < 256 ^ suc n → x / 256 < 256 ^ n
quotient-lt n x h = let e : 256 ^ suc n ≡ 256 ^ n * 256 = pow-suc 256 n in omega arith

pub be_value-be_bytes : (n x : ℕ) → x < 256 ^ n → be_value 0 (be_bytes n x) ≡ x
unfolding be_bytes be_value
be_value-be_bytes zero x h = omega arith
be_value-be_bytes (suc n) x h =
    rw (be_value-append, be_value-be_bytes n (x / 256) (quotient-lt n x h)) (omega arith)

pub compare_bytes-append :
    (xs ys us vs : Bytes)
    → length xs ≡ length ys
    → compare_bytes (xs ++ us) (ys ++ vs)
      ≡ elim (compare_bytes xs ys) [ Ordering.eq ↦ compare_bytes us vs | o ↦ o ]
unfolding compare_bytes
compare_bytes-append [] [] us vs h = refl
compare_bytes-append [] (_ ∷ _) us vs h = absurd (omega arith)
compare_bytes-append (_ ∷ _) [] us vs h = absurd (omega arith)
compare_bytes-append (x ∷ xs) (y ∷ ys) us vs h = ground (arith, compare_bytes-append xs ys us vs)

pub compare_bytes-nil_left : (xs : Bytes) → 0 < length xs → compare_bytes [] xs ≡ Ordering.lt
unfolding compare_bytes
compare_bytes-nil_left [] h = absurd (omega arith)
compare_bytes-nil_left (x ∷ xs) h = refl

pub compare_bytes-nil_right : (xs : Bytes) → 0 < length xs → compare_bytes xs [] ≡ Ordering.gt
unfolding compare_bytes
compare_bytes-nil_right [] h = absurd (omega arith)
compare_bytes-nil_right (x ∷ xs) h = refl

pub compare_bytes-nil : compare_bytes [] [] ≡ Ordering.eq
unfolding compare_bytes
compare_bytes-nil = refl

compare_bytes-digit : (a b : ℕ) → compare_bytes (a ∷ []) (b ∷ []) ≡ compare a b
unfolding compare_bytes
compare_bytes-digit a b = ground arith

-- Byte-wise comparison of two big-endian words of one width is comparison of the numbers.
pub compare-be_bytes :
    (n x y : ℕ)
    → x < 256 ^ n
    → y < 256 ^ n
    → compare_bytes (be_bytes n x) (be_bytes n y) ≡ compare x y
unfolding be_bytes
compare-be_bytes zero x y hx hy = unfold compare_bytes in ground arith
compare-be_bytes (suc n) x y hx hy =
    rw
      (
        compare_bytes-append (be_bytes n (x / 256)) (be_bytes n (y / 256)) ((x % 256) ∷ [])
            ((y % 256) ∷ []) (length-be_bytes n (x / 256) ∙ sym (length-be_bytes n (y / 256))),
        compare-be_bytes n (x / 256) (y / 256) (quotient-lt n x hx) (quotient-lt n y hy),
      )
      (ground (arith, compare_bytes-digit (x % 256) (y % 256)))
