-- ===== src/Paxos/Proposer/Votes.antt =====
-- What a successful accept round has heard, and quorums as counts over the voters.
use dstore.Prelude.{
  ℕ, ◌+◌, ◌≤◌, ◌<◌, ◌≡◌, refl, inl, inr, ap, Bool, true, false, Option, some, List, [], ◌∷◌, arith,
  leb, leb→le, ◌==◌, ==_iff, length, elem, Distinct, count, Bool-cases,
}
use dstore.Bytes.{Bytes}
use dstore.View.{View, quorum}
use dstore.Wire.{t_accepted, Msg}
use dstore.Paxos.Proposer.{Reply, ok, classify, is_accepted, collect_votes, accept_round}
use dstore.Paxos.Proposer.Collect.{
  reply_ids, Round-cases, Heard, Heard-weaken, elem-In, classify-ok, is_accepted-eq,
}

count-le :
    (p q : ℕ → Bool) (xs : List ℕ) → ((y : ℕ) → p y ≡ true → q y ≡ true) → count p xs ≤ count q xs
count-le p q [] mono = omega arith
count-le p q (y ∷ ys) mono = ground (arith, mono y, count-le p q ys mono)

-- The larger of two tests counts one more where they differ.
count-lt :
    (p q : ℕ → Bool) (x : ℕ) (xs : List ℕ)
    → ((y : ℕ) → p y ≡ true → q y ≡ true)
    → elem x xs ≡ true
    → p x ≡ false
    → q x ≡ true
    → count p xs < count q xs
count-lt p q x [] mono h no_p yes_q = cc
count-lt p q x (y ∷ ys) mono h no_p yes_q = elim (Bool-cases (y == x)) [
  | inl e ↦
      (let e' : y ≡ x = (==_iff y x).0 e in ground (arith, ap p e', ap q e', count-le p q ys mono))
  | inr e ↦ ground (arith, mono y, count-lt p q x ys mono (ground arith) no_p yes_q)
]

-- Distinct ids that are all in a list are at most as many as the entries that they match.
pub length-le-count :
    (ids xs : List ℕ)
    → Distinct ids
    → ((a : ℕ) → elem a ids ≡ true → elem a xs ≡ true)
    → length ids ≤ count (λ a. elem a ids) xs
length-le-count [] xs d h = omega arith
length-le-count (i ∷ ids) xs d h =
    let step : count (λ a. elem a ids) xs < count (λ a. elem a (i ∷ ids)) xs =
      count-lt (λ a. elem a ids) (λ a. elem a (i ∷ ids)) i xs (λ y e. ground arith)
        (h i (ground arith)) d.0 (ground arith) in
    omega (arith, length-le-count ids xs d.1 (λ a e. h a (ground arith)))

module _ (decode : Bytes → Option View) (v : View) where
  pub record Acceptances (n : ℕ) (replies : List Reply) : Type 0 where
    pub ids : List ℕ
    pub enough : quorum v ≤ n + length ids
    pub distinct : Distinct (reply_ids replies) → Distinct ids
    pub heard : (a : ℕ) → elem a ids ≡ true → (m : Msg) × Heard t_accepted v replies a m

  Acceptances-skip :
      {n : ℕ} {rest : List Reply} (r : Reply) → Acceptances n rest → Acceptances n (r ∷ rest)
  Acceptances-skip r k = record {
    ids = k.ids;
    enough = k.enough;
    distinct = λ d. k.distinct d.1;
    heard = λ a e. let (m, h) = k.heard a e in (m, Heard-weaken r h);
  }

  elem-Acceptances :
      {n : ℕ} {replies : List Reply} (a : ℕ) (k : Acceptances n replies)
      → elem a (reply_ids replies) ≡ false
      → elem a k.ids ≡ false
  elem-Acceptances {replies} a k h = elim (Bool-cases (elem a k.ids)) [
    | inr e ↦ e
    | inl e ↦ let (m, heard) = k.heard a e in cc (elem-In a (some m) replies heard.among)
  ]

  module _ (n : ℕ) (r : Reply) (rest : List Reply) (m : Msg) (c : classify decode v r ≡ ok m)
      (t : is_accepted m.type ≡ true) where
    vote_first : Heard t_accepted v (r ∷ rest) r.id m
    vote_first =
        let (e, i, p) = classify-ok decode v r m c in
        record {
          among = inl (ap (λ (o : Option Msg). record { id = r.id; msg = o }) e);
          type = is_accepted-eq m.type t;
          incarnation = i;
          epoch = p;
        }

    Acceptances-stop : quorum v ≤ n + 1 → Acceptances n (r ∷ rest)
    Acceptances-stop enough = record {
      ids = r.id ∷ [];
      enough = omega arith;
      distinct = λ d. (refl, tt);
      heard = λ a e. let q : r.id ≡ a = ground arith in rw (← q) (m, vote_first);
    }

    Acceptances-add : Acceptances (n + 1) rest → Acceptances n (r ∷ rest)
    Acceptances-add k = record {
      ids = r.id ∷ k.ids;
      enough = omega (arith, k.enough);
      distinct = λ d. (elem-Acceptances r.id k d.0, k.distinct d.1);
      heard = λ a e. elim (Bool-cases (r.id == a)) [
        | inl q ↦ rw (← (==_iff r.id a).0 q) (m, vote_first)
        | inr q ↦ let (m', h) = k.heard a (ground arith) in (m', Heard-weaken r h)
      ];
    }

  collect_votes-ok :
      (n : ℕ) (replies : List Reply)
      → collect_votes decode v n replies ≡ ok tt
      → Acceptances n replies
  unfolding collect_votes
  collect_votes-ok n [] h = ground arith
  collect_votes-ok n (r ∷ rest) h = elim (Round-cases (classify decode v r)) [
    | inr (e, c) ↦ Acceptances-skip r (collect_votes-ok n rest (ground arith))
    | inl (m, c) ↦ elim (Bool-cases (is_accepted m.type)) [
      | inr t ↦ Acceptances-skip r (collect_votes-ok n rest (ground arith))
      | inl t ↦ elim (Bool-cases (leb (quorum v) (n + 1))) [
        | inl q ↦ Acceptances-stop n r rest m c t (leb→le (quorum v) (n + 1) q)
        | inr q ↦ Acceptances-add n r rest m c t (collect_votes-ok (n + 1) rest (ground arith))
      ]
    ]
  ]

  -- An accept round that succeeds has heard acceptances of the round's epoch from a quorum of voters,
  -- distinct where the replies are from distinct nodes.
  pub accept_round-ok :
      (replies : List Reply) → accept_round decode v replies ≡ ok tt → Acceptances 0 replies
  unfolding accept_round
  accept_round-ok replies h = collect_votes-ok 0 replies h
