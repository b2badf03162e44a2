-- ===== src/Paxos/Ballot/Encoding.antt =====
-- The 40-byte encoding of ballots: round trip, and the order it keeps.
use native.Mathlib.Nat.{mod-eq_of_lt}
use dstore.Prelude.{
  ℕ, zero, suc, ◌≡◌, refl, ◌∙◌, sym, ap, true, some, List, [], ◌∷◌, ◌++◌, arith, length,
  length-append, take, drop, inl, inr, Bool-cases,
}
use dstore.Bytes.{
  Bytes, be_bytes, compare_bytes, length-be_bytes, be_value-be_bytes, compare-be_bytes,
  compare_bytes-append, compare_bytes-nil, compare_bytes-nil_left, compare_bytes-nil_right,
}
use dstore.Paxos.Ballot.{Ballot, zero_ballot, IsWord, is_zero, compare, bytes, parse_ballot}

take-append {ℓ} : {A : Type ℓ} (n : ℕ) (xs ys : List A) → length xs ≡ n → take n (xs ++ ys) ≡ xs
take-append zero [] ys h = refl
take-append zero (x ∷ xs) ys h = absurd (omega arith)
take-append (suc n) [] ys h = absurd (omega arith)
take-append (suc n) (x ∷ xs) ys h = cc (take-append n xs ys (omega arith))

drop-append {ℓ} : {A : Type ℓ} (n : ℕ) (xs ys : List A) → length xs ≡ n → drop n (xs ++ ys) ≡ ys
drop-append zero [] ys h = refl
drop-append zero (x ∷ xs) ys h = absurd (omega arith)
drop-append (suc n) [] ys h = absurd (omega arith)
drop-append (suc n) (x ∷ xs) ys h = drop-append n xs ys (omega arith)

length-words : (a b : ℕ) → length (be_bytes 8 a ++ be_bytes 32 b) ≡ 40
length-words a b =
    omega (
      arith,
      length-append (be_bytes 8 a) (be_bytes 32 b),
      length-be_bytes 8 a,
      length-be_bytes 32 b,
    )

-- A decoded ballot has both words in range.
pub parse_ballot-IsWord : (x : Bytes) (b : Ballot) → parse_ballot x ≡ some b → IsWord b
unfolding parse_ballot
parse_ballot-IsWord x b h = ground arith

zero_of_is_zero : (b : Ballot) → is_zero b ≡ true → zero_ballot ≡ b
unfolding is_zero
zero_of_is_zero b h = ground arith

words_back :
    (b : Ballot) → IsWord b → parse_ballot (be_bytes 8 b.counter ++ be_bytes 32 b.proposer) ≡ some b
unfolding parse_ballot
words_back b w = rw (
  length-words b.counter b.proposer,
  take-append 8 (be_bytes 8 b.counter) (be_bytes 32 b.proposer) (length-be_bytes 8 _),
  drop-append 8 (be_bytes 8 b.counter) (be_bytes 32 b.proposer) (length-be_bytes 8 _),
  be_value-be_bytes 8 b.counter w.counter_range,
  be_value-be_bytes 32 b.proposer w.proposer_range,
  mod-eq_of_lt w.counter_range,
  mod-eq_of_lt w.proposer_range,
)

-- Decoding what `Bytes` wrote gives the ballot back, the zero ballot included.
pub parse_ballot-bytes : (b : Ballot) → IsWord b → parse_ballot (bytes b) ≡ some b
unfolding bytes
parse_ballot-bytes b w = elim (Bool-cases (is_zero b)) [
  | inl z ↦ rw z (unfold parse_ballot in ap some (zero_of_is_zero b z))
  | inr z ↦ rw z (words_back b w)
]

words_order :
    (a b : Ballot)
    → IsWord a
    → IsWord b
    → compare_bytes
        (be_bytes 8 a.counter ++ be_bytes 32 a.proposer)
        (be_bytes 8 b.counter ++ be_bytes 32 b.proposer)
      ≡ compare a b
unfolding compare
words_order a b v w =
    rw
      (
        compare_bytes-append (be_bytes 8 a.counter) (be_bytes 8 b.counter) (be_bytes 32 a.proposer)
            (be_bytes 32 b.proposer)
            (length-be_bytes 8 a.counter ∙ sym (length-be_bytes 8 b.counter)),
        compare-be_bytes 8 a.counter b.counter v.counter_range w.counter_range,
      )
      (ground (arith, compare-be_bytes 32 a.proposer b.proposer v.proposer_range w.proposer_range))

-- The encoding orders like the ballot.
pub compare_bytes-bytes :
    (a b : Ballot) → IsWord a → IsWord b → compare_bytes (bytes a) (bytes b) ≡ compare a b
unfolding bytes compare
compare_bytes-bytes a b v w = ground (
  arith,
  words_order a b v w,
  compare_bytes-nil_left (be_bytes 8 b.counter ++ be_bytes 32 b.proposer)
      (omega (arith, length-words b.counter b.proposer)),
  compare_bytes-nil_right (be_bytes 8 a.counter ++ be_bytes 32 a.proposer)
      (omega (arith, length-words a.counter a.proposer)),
  compare_bytes-nil,
)
