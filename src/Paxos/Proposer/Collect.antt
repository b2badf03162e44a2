-- ===== src/Paxos/Proposer/Collect.antt =====
-- What a successful round has heard: a quorum of voters, at the round's epoch.
use dstore.Prelude.{
  ℕ, ◌+◌, ◌≤◌, ◌<◌, ◌≡◌, refl, ◌⊎◌, ◌↔◌, inl, inr, ap, ◌∙◌, true, false, Option, some, List, [],
  ◌∷◌, arith, leb, leb→le, ◌==◌, ==_iff, map, length, elem, Distinct, In, Bool-cases,
}
use dstore.Bytes.{Bytes}
use dstore.View.{View, quorum}
use dstore.Wire.{t_promise, t_accepted, Msg, FrameType}
use dstore.Paxos.Ballot.{parse_or_zero, above, ◌≼◌, ≼_trans}
use dstore.Paxos.Proposer.{
  Row, zero_row, Reply, RoundError, Round, ok, err, classify, is_promise, is_accepted, reply_row,
  better, collect_promises, prepare_round,
}

abbrev pub reply_ids : List Reply → List ℕ
reply_ids rs = map (λ (r : Reply). r.id) rs

pub Round-cases {ℓ} :
    {A : Type ℓ} (r : Round A) → ((a : A) × (r ≡ ok a)) ⊎ ((e : RoundError) × (r ≡ err e))
Round-cases (ok a) = inl (a, refl)
Round-cases (err e) = inr (e, refl)

is_promise-eq : (t : FrameType) → is_promise t ≡ true → t ≡ t_promise
unfolding is_promise
is_promise-eq t_promise h = refl
is_promise-eq _ h = cc

pub is_accepted-eq : (t : FrameType) → is_accepted t ≡ true → t ≡ t_accepted
unfolding is_accepted
is_accepted-eq t_accepted h = refl
is_accepted-eq _ h = cc

pub is_promise_iff : (t : FrameType) → (is_promise t ≡ true) ↔ (t ≡ t_promise)
is_promise_iff t = (is_promise-eq t, λ e. rw e (unfold is_promise in refl))

pub is_accepted_iff : (t : FrameType) → (is_accepted t ≡ true) ↔ (t ≡ t_accepted)
is_accepted_iff t = (is_accepted-eq t, λ e. rw e (unfold is_accepted in refl))

-- A voter's message of a type, tagged with the round's epoch, is among the replies.
pub record Heard (t : FrameType) (v : View) (replies : List Reply) (a : ℕ) (m : Msg) : Type 0 where
  pub among : In (record { id = a; msg = some m }) replies
  pub type : m.type ≡ t
  pub incarnation : m.incarnation ≡ v.incarnation
  pub epoch : m.epoch ≡ v.epoch

pub Heard-weaken :
    {t : FrameType} {v : View} {replies : List Reply} (r : Reply) {a : ℕ} {m : Msg}
    → Heard t v replies a m
    → Heard t v (r ∷ replies) a m
Heard-weaken r h = record {
  among = inr h.among;
  type = h.type;
  incarnation = h.incarnation;
  epoch = h.epoch;
}

pub elem-In :
    (a : ℕ) (m : Option Msg) (rs : List Reply)
    → In (record { id = a; msg = m }) rs
    → elem a (reply_ids rs) ≡ true
elem-In a m [] h = absurd h
elem-In a m (r ∷ rs) (inl e) = ground (arith, ap (λ (x : Reply). x.id) e)
elem-In a m (r ∷ rs) (inr h) = ground (arith, elem-In a m rs h)

module _ (decode : Bytes → Option View) (v : View) where
  pub classify-ok :
      (r : Reply) (m : Msg)
      → classify decode v r ≡ ok m
      → (r.msg ≡ some m) × (m.incarnation ≡ v.incarnation) × (m.epoch ≡ v.epoch)
  unfolding classify
  classify-ok r m h = ground arith

  -- The voters whose promises were counted: distinct, and none with a higher accepted ballot than `row`.
  pub record Promisers (replies : List Reply) (row : Row) (ids : List ℕ) : Type 0 where
    pub distinct : Distinct (reply_ids replies) → Distinct ids
    pub heard :
        (a : ℕ)
        → elem a ids ≡ true
        → (m : Msg) × Heard t_promise v replies a m × (parse_or_zero m.accepted ≼ row.accepted)

  Promisers-skip :
      {replies : List Reply} {row : Row} {ids : List ℕ} (r : Reply)
      → Promisers replies row ids
      → Promisers (r ∷ replies) row ids
  Promisers-skip r p = record {
    distinct = λ d. p.distinct d.1;
    heard = λ a e. let (m, h, le) = p.heard a e in (m, Heard-weaken r h, le);
  }

  Promisers-nil : (replies : List Reply) (row : Row) → Promisers replies row []
  Promisers-nil replies row = record { distinct = λ d. tt; heard = λ a e. cc }

  elem-Promisers :
      {replies : List Reply} {row : Row} {ids : List ℕ} (a : ℕ)
      → Promisers replies row ids
      → elem a (reply_ids replies) ≡ false
      → elem a ids ≡ false
  elem-Promisers {replies} {ids} a p h = elim (Bool-cases (elem a ids)) [
    | inr e ↦ e
    | inl e ↦ let (m, heard, le) = p.heard a e in cc (elem-In a (some m) replies heard.among)
  ]

  Heard-first :
      (r : Reply) (rest : List Reply) (m : Msg)
      → classify decode v r ≡ ok m
      → is_promise m.type ≡ true
      → Heard t_promise v (r ∷ rest) r.id m
  Heard-first r rest m c t =
      let (e, i, p) = classify-ok r m c in
      record {
        among = inl (ap (λ (o : Option Msg). record { id = r.id; msg = o }) e);
        type = is_promise-eq m.type t;
        incarnation = i;
        epoch = p;
      }

  Promisers-add :
      {rest : List Reply} {row : Row} {ids : List ℕ} (r : Reply) (m : Msg)
      → classify decode v r ≡ ok m
      → is_promise m.type ≡ true
      → parse_or_zero m.accepted ≼ row.accepted
      → Promisers rest row ids
      → Promisers (r ∷ rest) row (r.id ∷ ids)
  Promisers-add {rest} {row} {ids} r m c t le p = record {
    distinct = λ d. (elem-Promisers r.id p d.0, p.distinct d.1);
    heard = λ a e. elim (Bool-cases (r.id == a)) [
      | inl q ↦ rw (← (==_iff r.id a).0 q) (m, Heard-first r rest m c t, le)
      | inr q ↦ let (m', h, le') = p.heard a (ground arith) in (m', Heard-weaken r h, le')
    ];
  }

  -- Where the row of a round comes from: the row at its start, or a promise that was heard.
  abbrev pub Source : Row → ℕ → List Reply → Row → Type 0
  Source best n replies row =
      ((0 < n) × (row ≡ best))
      ⊎ ((a : ℕ) × (m : Msg) × Heard t_promise v replies a m × (row ≡ reply_row decode m))

  better-best_le :
      (best : Row) (n : ℕ) (m : Msg) → 0 < n → best.accepted ≼ (better decode best n m).accepted
  unfolding better above
  better-best_le best n m h = ground arith

  better-msg_le :
      (best : Row) (n : ℕ) (m : Msg) → parse_or_zero m.accepted ≼ (better decode best n m).accepted
  unfolding better above
  better-msg_le best n m = ground arith

  better-source :
      (best : Row) (n : ℕ) (m : Msg)
      → ((0 < n) × (better decode best n m ≡ best)) ⊎ (better decode best n m ≡ reply_row decode m)
  unfolding better
  better-source best n m = ground arith

  pub record Collected (best : Row) (n : ℕ) (replies : List Reply) (row : Row) : Type 0 where
    pub ids : List ℕ
    pub enough : quorum v ≤ n + length ids
    pub promisers : Promisers replies row ids
    pub best_le : 0 < n → best.accepted ≼ row.accepted
    pub source : Source best n replies row

  Source-weaken :
      {best : Row} {n : ℕ} {rest : List Reply} {row : Row} (r : Reply)
      → Source best n rest row
      → Source best n (r ∷ rest) row
  Source-weaken r (inl p) = inl p
  Source-weaken r (inr (a, m, h, e)) = inr (a, m, Heard-weaken r h, e)

  Collected-skip :
      {best : Row} {n : ℕ} {rest : List Reply} {row : Row} (r : Reply)
      → Collected best n rest row
      → Collected best n (r ∷ rest) row
  Collected-skip r k = record {
    ids = k.ids;
    enough = k.enough;
    promisers = Promisers-skip r k.promisers;
    best_le = k.best_le;
    source = Source-weaken r k.source;
  }

  -- A promise is counted first: what is known of the rest with the better row carries over.
  module _ (best : Row) (n : ℕ) (r : Reply) (rest : List Reply) (m : Msg)
      (c : classify decode v r ≡ ok m) (t : is_promise m.type ≡ true) where
    first-Source : (row : Row) → row ≡ better decode best n m → Source best n (r ∷ rest) row
    first-Source row e = elim (better-source best n m) [
      | inl (pos, e') ↦ inl (pos, e ∙ e')
      | inr e' ↦ inr (r.id, m, Heard-first r rest m c t, e ∙ e')
    ]

    Collected-stop : quorum v ≤ n + 1 → Collected best n (r ∷ rest) (better decode best n m)
    Collected-stop enough = record {
      ids = r.id ∷ [];
      enough = omega arith;
      promisers =
          Promisers-add r m c t (better-msg_le best n m)
            (Promisers-nil rest (better decode best n m));
      best_le = better-best_le best n m;
      source = first-Source (better decode best n m) refl;
    }

    Collected-add :
        (row : Row)
        → Collected (better decode best n m) (n + 1) rest row
        → Collected best n (r ∷ rest) row
    Collected-add row k =
        let le : (better decode best n m).accepted ≼ row.accepted = k.best_le (omega arith) in
        record {
          ids = r.id ∷ k.ids;
          enough = omega (arith, k.enough);
          promisers = Promisers-add r m c t (≼_trans _ _ _ (better-msg_le best n m) le) k.promisers;
          best_le = λ pos. ≼_trans _ _ _ (better-best_le best n m pos) le;
          source = elim k.source [
            | inl (_, e) ↦ first-Source row e
            | inr (a, m', h, e) ↦ inr (a, m', Heard-weaken r h, e)
          ];
        }

  collect_promises-ok :
      (best : Row) (n : ℕ) (replies : List Reply) (row : Row)
      → collect_promises decode v best n replies ≡ ok row
      → Collected best n replies row
  unfolding collect_promises
  collect_promises-ok best n [] row h = cc
  collect_promises-ok best n (r ∷ rest) row h = elim (Round-cases (classify decode v r)) [
    | inr (e, c) ↦ Collected-skip r (collect_promises-ok best n rest row (ground arith))
    | inl (m, c) ↦ elim (Bool-cases (is_promise m.type)) [
      | inr t ↦ Collected-skip r (collect_promises-ok best n rest row (ground arith))
      | inl t ↦ elim (Bool-cases (leb (quorum v) (n + 1))) [
        | inl q ↦
            let e : better decode best n m ≡ row = ground arith in
            rw (← e) (Collected-stop best n r rest m c t (leb→le (quorum v) (n + 1) q))
        | inr q ↦
            Collected-add best n r rest m c t row
              (collect_promises-ok (better decode best n m) (n + 1) rest row (ground arith))
      ]
    ]
  ]

  -- A prepare round that succeeds has heard promises of the round's epoch from a quorum of voters,
  -- distinct where the replies are from distinct nodes, and its row is one that a voter reported, with the highest accepted ballot of those counted.
  pub prepare_round-ok :
      (replies : List Reply) (row : Row)
      → prepare_round decode v replies ≡ ok row
      → Collected zero_row 0 replies row
  unfolding prepare_round
  prepare_round-ok replies row h = collect_promises-ok zero_row 0 replies row h
