-- ===== src/Node/Ballots.antt =====
-- node/node.go: NextBallot and BumpBallot, over the counter that meta keeps. A write that fails leaves the
-- counter as it was. Restarting loses `ballotNext` and `ballotMax`.
use mathlib.Core.Path.{subst}
use mathlib.Core.Option.{some-injective}
use native.Mathlib.Nat.{mod-eq_of_lt}
use dstore.Prelude.{
  ℕ, ◌+◌, ◌%◌, ◌^◌, ◌≤◌, ◌<◌, ◌≡◌, ◌⊎◌, refl, inl, inr, Bool, true, false, ◌||◌, Option, none, some,
  List, [], ◌∷◌, leb, ltb, ◌==◌, if◌then◌else◌, All, arith, Bool-cases, some-ne-none, sym,
}

pub record Counter : Type 0 where
  pub persisted : ℕ
  pub next : ℕ
  pub max : ℕ

abbrev pub ballot_block : ℕ
ballot_block = 1000

-- NextBallot; `has_read` and `wrote` say whether the read of meta and the write to it succeed. GetU64 gives 0
-- where the read fails.
unfoldable pub next_ballot : (has_read wrote : Bool) → Counter → Counter × Option ℕ
next_ballot has_read wrote n =
    let cur = if has_read then n.persisted else 0 in
    let limit = (cur + ballot_block) % 2 ^ 64 in
    let first = (cur + 1) % 2 ^ 64 in
    if n.next == 0 || leb n.max n.next
    then (if wrote
        then (record { persisted = limit; next = (first + 1) % 2 ^ 64; max = limit }, some first)
        else (n, none))
    else (record n { next = (n.next + 1) % 2 ^ 64 }, some n.next)

-- BumpBallot; `false` is the error.
unfoldable pub bump_ballot : Bool → ℕ → Counter → Counter × Bool
bump_ballot wrote c n =
    let limit = (c + ballot_block) % 2 ^ 64 in
    if ltb c n.next
    then (n, true)
    else if wrote
    then (record { persisted = limit; next = (c + 1) % 2 ^ 64; max = limit }, true)
    else (n, false)

abbrev pub restart : Counter → Counter
restart n = record { persisted = n.persisted; next = 0; max = 0 }

-- The counters handed out by a node, the newest first, from an empty database on. ballotAbove bumps only
-- after a NextBallot, so `next` is not 0 there. The counters stay below 2 ^ 64, and no read of meta fails.
pub data Run : Counter → List ℕ → Type 0 where
  start : Run (record { persisted = 0; next = 0; max = 0 }) []
  draws :
      {n : Counter} {bs : List ℕ} (wrote : Bool) (b : ℕ)
      → Run n bs
      → n.persisted + ballot_block < 2 ^ 64
      → (next_ballot true wrote n).1 ≡ some b
      → Run (next_ballot true wrote n).0 (b ∷ bs)
  draw_fails :
      {n : Counter} {bs : List ℕ} (wrote : Bool)
      → Run n bs
      → (next_ballot true wrote n).1 ≡ none
      → Run (next_ballot true wrote n).0 bs
  bumps :
      {n : Counter} {bs : List ℕ} (wrote : Bool) (c : ℕ)
      → Run n bs
      → c + ballot_block < 2 ^ 64
      → 0 < n.next
      → Run (bump_ballot wrote c n).0 bs
  restarts : {n : Counter} {bs : List ℕ} → Run n bs → Run (restart n) bs

-- All counters handed out are at most `top`, which a restart keeps below what is persisted.
record Inv (n : Counter) (bs : List ℕ) : Type 0 where
  top : ℕ
  below : All (λ (a : ℕ). a ≤ top) bs
  kept : top ≤ n.persisted
  word : n.persisted < 2 ^ 64
  live :
      (n.next ≡ 0)
      ⊎ ((top < n.next) × (n.next ≤ n.max) × (n.max ≡ n.persisted) × (n.persisted ≤ n.next + 999))

All-weaken : (t u : ℕ) (bs : List ℕ) → t ≤ u → All (λ (a : ℕ). a ≤ t) bs → All (λ (a : ℕ). a ≤ u) bs
All-weaken t u [] h a = tt
All-weaken t u (b ∷ bs) h a = (omega (arith, a.0), All-weaken t u bs h a.1)

All-strict : (t u : ℕ) (bs : List ℕ) → t < u → All (λ (a : ℕ). a ≤ t) bs → All (λ (a : ℕ). a < u) bs
All-strict t u [] h a = tt
All-strict t u (b ∷ bs) h a = (omega (arith, a.0), All-strict t u bs h a.1)

-- A draw hands out a counter above `top`.
Drawn : Counter → List ℕ → ℕ → Counter × Option ℕ → Type 0
Drawn n bs top (n', none) = n' ≡ n
Drawn n bs top (n', some b) = (top < b) × Inv n' (b ∷ bs)

module _ (n : Counter) (bs : List ℕ) (i : Inv n bs) where
  -- A new block starts above everything persisted.
  block_Drawn :
      n.persisted + ballot_block < 2 ^ 64
      → Drawn n bs i.top (
        record {
          persisted = (n.persisted + ballot_block) % 2 ^ 64;
          next = ((n.persisted + 1) % 2 ^ 64 + 1) % 2 ^ 64;
          max = (n.persisted + ballot_block) % 2 ^ 64;
        },
        some ((n.persisted + 1) % 2 ^ 64),
      )
  unfolding Drawn
  block_Drawn h =
      rw (mod-eq_of_lt h, mod-eq_of_lt one, mod-eq_of_lt two)
        (
          omega (arith, i.kept),
          record {
            top = n.persisted + 1;
            below = (
              omega arith,
              All-weaken i.top (n.persisted + 1) bs (omega (arith, i.kept)) i.below,
            );
            kept = omega arith;
            word = h;
            live = inr (omega arith, omega arith, refl, omega arith);
          },
        )
    where
      one : n.persisted + 1 < 2 ^ 64
      one = omega arith

      two : n.persisted + 1 + 1 < 2 ^ 64
      two = omega arith

  -- Within a block, the next counter is above all of it that went before.
  within_Drawn :
      (n.next == 0 || leb n.max n.next) ≡ false
      → Drawn n bs i.top (record n { next = (n.next + 1) % 2 ^ 64 }, some n.next)
  unfolding Drawn
  within_Drawn f = elim i.live [
    | inl z ↦ absurd (ground arith)
    | inr (lt, le, e, room) ↦
        let more : n.next < n.max = ground arith in
        let small : n.next + 1 < 2 ^ 64 = omega (arith, i.word) in
        rw (mod-eq_of_lt small) (
          lt,
          record {
            top = n.next;
            below = (omega arith, All-weaken i.top n.next bs (omega arith) i.below);
            kept = omega arith;
            word = i.word;
            live = inr (omega arith, omega arith, e, omega arith);
          },
        )
  ]

  failed_Drawn : Drawn n bs i.top (n, none)
  unfolding Drawn
  failed_Drawn = refl

  next_ballot-Drawn :
      (wrote : Bool)
      → n.persisted + ballot_block < 2 ^ 64
      → Drawn n bs i.top (next_ballot true wrote n)
  unfolding next_ballot
  next_ballot-Drawn wrote h = elim (Bool-cases (n.next == 0 || leb n.max n.next)) [
    | inr f ↦ rw f (within_Drawn f)
    | inl t ↦
        rw t (elim (Bool-cases wrote) [ inl w ↦ rw w (block_Drawn h) | inr w ↦ rw w failed_Drawn ])
  ]

  bump_ballot-Inv :
      (wrote : Bool) (c : ℕ)
      → c + ballot_block < 2 ^ 64
      → 0 < n.next
      → Inv (bump_ballot wrote c n).0 bs
  unfolding bump_ballot
  bump_ballot-Inv wrote c h pos = elim (Bool-cases (ltb c n.next)) [
    | inl t ↦ rw t i
    | inr f ↦ rw f (elim (Bool-cases wrote) [
      | inr w ↦ rw w i
      | inl w ↦
          let small : c + 1 < 2 ^ 64 = omega arith in
          rw (w, mod-eq_of_lt h, mod-eq_of_lt small)
            (elim i.live [
              | inl z ↦ absurd (omega arith)
              | inr (lt, le, e, room) ↦ record {
                top = i.top;
                below = i.below;
                kept = ground arith;
                word = h;
                live = inr (ground arith, omega arith, refl, omega arith);
              }
            ])
    ])
  ]

-- A run keeps the invariant.
Drawn-some :
    (n : Counter) (bs : List ℕ) (top b : ℕ) (r : Counter × Option ℕ)
    → Drawn n bs top r
    → r.1 ≡ some b
    → (top < b) × Inv r.0 (b ∷ bs)
unfolding Drawn
Drawn-some n bs top b (n', none) d e = some-ne-none (sym e)
Drawn-some n bs top b (n', some b') d e =
    subst (λ (x : ℕ). (top < x) × Inv n' (x ∷ bs)) (some-injective b' b e) d

next_ballot-none :
    (wrote : Bool) (n : Counter)
    → (next_ballot true wrote n).1 ≡ none
    → (next_ballot true wrote n).0 ≡ n
unfolding next_ballot
next_ballot-none wrote n = elim (Bool-cases (n.next == 0 || leb n.max n.next)) [
  | inr f ↦ rw f (λ e. some-ne-none e)
  | inl t ↦
      rw t
        (elim (Bool-cases wrote) [ inl w ↦ rw w (λ e. some-ne-none e) | inr w ↦ rw w (λ e. refl) ])
]

Run-Inv : {n : Counter} {bs : List ℕ} → Run n bs → Inv n bs
Run-Inv start = record {
  top = 0;
  below = tt;
  kept = omega arith;
  word = omega arith;
  live = inl refl;
}
Run-Inv (draws {n} {bs} wrote b r h e) =
    let i = Run-Inv r in
    let (_, after) =
      Drawn-some n bs i.top b (next_ballot true wrote n) (next_ballot-Drawn n bs i wrote h) e in
    after
Run-Inv (draw_fails {n} {bs} wrote r e) =
    subst (λ (x : Counter). Inv x bs) (sym (next_ballot-none wrote n e)) (Run-Inv r)
Run-Inv (bumps {n} {bs} wrote c r h pos) = bump_ballot-Inv n bs (Run-Inv r) wrote c h pos
Run-Inv (restarts r) =
    let i = Run-Inv r in
    record { top = i.top; below = i.below; kept = i.kept; word = i.word; live = inl refl }

-- Each number is above all that follow it.
abbrev pub Descending : List ℕ → Type 0
Descending [] = Unit
Descending (b ∷ bs) = All (λ (a : ℕ). a < b) bs × Descending bs

-- A node never hands out a ballot counter twice, nor one below an earlier one, whatever bumps, failed
-- writes and restarts come between, as long as no read of the persisted counter fails and the counters stay
-- below 2 ^ 64.
pub Run-Descending : {n : Counter} {bs : List ℕ} → Run n bs → Descending bs
Run-Descending start = tt
Run-Descending (draws {n} {bs} wrote b r h e) =
    let i = Run-Inv r in
    let (lt, _) =
      Drawn-some n bs i.top b (next_ballot true wrote n) (next_ballot-Drawn n bs i wrote h) e in
    (All-strict i.top b bs lt i.below, Run-Descending r)
Run-Descending (draw_fails wrote r e) = Run-Descending r
Run-Descending (bumps wrote c r h pos) = Run-Descending r
Run-Descending (restarts r) = Run-Descending r
