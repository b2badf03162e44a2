-- ===== src/Paxos/Ballot.antt =====
-- paxos/ballot.go: ballots, their order and their 40-byte encoding.
pub mod Encoding
use Prim.Native.Nat.{compare as compare_ℕ}
use dstore.Prelude.{
  ℕ, ◌%◌, ◌^◌, ◌≤◌, ◌<◌, Ordering, ◌≡◌, ◌⊎◌, Bool, true, false, ◌&&◌, not, Option, none, some, [],
  ◌++◌, arith, ltb, ◌==◌, if◌then◌else◌, length, take, drop,
}
use dstore.Bytes.{Bytes, be_bytes, be_value}

-- The proposer is a [32]byte node id, read as a number (Bytes.antt).
pub record Ballot : Type 0 where
  pub counter : ℕ
  pub proposer : ℕ

abbrev pub zero_ballot : Ballot
zero_ballot = record { counter = 0; proposer = 0 }

abbrev pub ballot_size : ℕ
ballot_size = 40

-- Both words are in range, as Go's types make them.
pub record IsWord (b : Ballot) : Type 0 where
  pub counter_range : b.counter < 256 ^ 8
  pub proposer_range : b.proposer < 256 ^ 32

unfoldable pub is_zero : Ballot → Bool
is_zero b = b.counter == 0 && b.proposer == 0

-- -1, 0 and 1 are `lt`, `eq` and `gt`.
unfoldable pub compare : Ballot → Ballot → Ordering
compare b o =
    if not (b.counter == o.counter)
    then (if ltb b.counter o.counter then Ordering.lt else Ordering.gt)
    else compare_ℕ b.proposer o.proposer

unfoldable pub less : Ballot → Ballot → Bool
unfolding compare
less b o = elim (compare b o) [ Ordering.lt ↦ true | _ ↦ false ]

-- The tests that the code makes of `Compare`'s result: > 0, <= 0, < 0, == 0.
unfoldable pub above : Ballot → Ballot → Bool
unfolding compare
above b o = elim (compare b o) [ Ordering.gt ↦ true | _ ↦ false ]

unfoldable pub same : Ballot → Ballot → Bool
unfolding compare
same b o = elim (compare b o) [ Ordering.eq ↦ true | _ ↦ false ]

unfoldable pub bytes : Ballot → Bytes
unfolding is_zero
bytes b = if is_zero b then [] else be_bytes 8 b.counter ++ be_bytes 32 b.proposer

-- `none` is the error. The words wrap as Go's conversions do.
unfoldable pub parse_ballot : Bytes → Option Ballot
parse_ballot b =
    if length b == 0
    then some zero_ballot
    else if not (length b == ballot_size)
    then none
    else some (record {
      counter = be_value 0 (take 8 b) % 256 ^ 8;
      proposer = be_value 0 (drop 8 b) % 256 ^ 32;
    })

-- `b, _ := ParseBallot(..)`: the zero ballot on an error.
unfoldable pub parse_or_zero : Bytes → Ballot
parse_or_zero b = elim (parse_ballot b) [ none ↦ zero_ballot | some x ↦ x ]

-- The order as a relation.
infix 50 ◌≼◌ ◌≺◌
abbrev pub ◌≺◌ : Ballot → Ballot → Type 0
a ≺ b = (a.counter < b.counter) ⊎ ((a.counter ≡ b.counter) × (a.proposer < b.proposer))

abbrev pub ◌≼◌ : Ballot → Ballot → Type 0
a ≼ b = (a.counter < b.counter) ⊎ ((a.counter ≡ b.counter) × (a.proposer ≤ b.proposer))

pub ≼_refl : (a : Ballot) → a ≼ a
≼_refl a = ground arith

pub ≼_trans : (a b c : Ballot) → a ≼ b → b ≼ c → a ≼ c
≼_trans a b c p q = ground arith

pub ≺-≼_trans : (a b c : Ballot) → a ≺ b → b ≼ c → a ≺ c
≺-≼_trans a b c p q = ground arith

pub ≼-≺_trans : (a b c : Ballot) → a ≼ b → b ≺ c → a ≺ c
≼-≺_trans a b c p q = ground arith

pub ≺_irrefl : (a : Ballot) → ¬ (a ≺ a)
≺_irrefl a p = ground arith

pub ≺→≼ : (a b : Ballot) → a ≺ b → a ≼ b
≺→≼ a b p = ground arith

pub ≼_antisym : (a b : Ballot) → a ≼ b → b ≼ a → a ≡ b
≼_antisym a b p q = ground arith

pub ≼_total : (a b : Ballot) → (a ≼ b) ⊎ (b ≺ a)
≼_total a b = ground arith

pub zero_ballot-≼ : (a : Ballot) → zero_ballot ≼ a
zero_ballot-≼ a = ground arith

pub above→≺ : (a b : Ballot) → above a b ≡ true → b ≺ a
unfolding above
above→≺ a b h = ground arith

pub ≺→above : (a b : Ballot) → b ≺ a → above a b ≡ true
unfolding above
≺→above a b h = ground arith

pub not-above→≼ : (a b : Ballot) → above a b ≡ false → a ≼ b
unfolding above
not-above→≼ a b h = ground arith

pub less→≺ : (a b : Ballot) → less a b ≡ true → a ≺ b
unfolding less
less→≺ a b h = ground arith

pub not-less→≼ : (a b : Ballot) → less a b ≡ false → b ≼ a
unfolding less
not-less→≼ a b h = ground arith

pub same→eq : (a b : Ballot) → same a b ≡ true → a ≡ b
unfolding same
same→eq a b h = ground arith

pub same_refl : (a : Ballot) → same a a ≡ true
unfolding same
same_refl a = ground arith
