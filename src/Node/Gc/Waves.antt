-- ===== src/Node/Gc/Waves.antt =====
-- The waves of a sweep: the coordinator's observeSweep and a node's poll between them do not stall.
use dstore.Prelude.{
  ℕ, zero, suc, ◌+◌, ◌-◌, ◌*◌, ◌≤◌, ◌<◌, ◌≡◌, ◌≢◌, ◌⊎◌, inl, inr, refl, sym, ◌∙◌, ap, Bool, true,
  false, ◌&&◌, ◌||◌, List, [], ◌∷◌, map, ltb, leb, ◌==◌, ==_iff, lt→ltb, if◌then◌else◌, length,
  take, elem, any, count, Distinct, arith, Bool-cases,
}
use dstore.View.{contains}
use dstore.Catalog.GcState.{GcState, NodeStat}
use dstore.Node.Gc.Register.{
  is_sweeping, has_reported, distinct_ids, reporters, quarter, released_done, closes, releases,
  waits, observe_sweep,
}
use dstore.Node.Gc.Sweep.{last_place, poll_starts}
use dstore.Paxos.Proposer.Votes.{length-le-count}

count-length : (p : ℕ → Bool) (xs : List ℕ) → count p xs ≤ length xs
count-length p [] = omega arith
count-length p (x ∷ xs) = ground (arith, count-length p xs)

elem-distinct_ids : (a : ℕ) (xs : List ℕ) → elem a xs ≡ true → elem a (distinct_ids xs) ≡ true
unfolding distinct_ids
elem-distinct_ids a (x ∷ xs) h = elim (Bool-cases (elem x xs)) [
  | inl t ↦ rw t (
      elem-distinct_ids a xs (elim (Bool-cases (x == a)) [
        | inl e ↦ ap (λ y. elem y xs) (sym ((==_iff x a).0 e)) ∙ t
        | inr e ↦ ground arith
      ]))
  | inr f ↦ rw f (ground (arith, elem-distinct_ids a xs))
]
elem-distinct_ids a [] h = cc

any-ids :
    (id : ℕ) (ss : List NodeStat)
    → any (λ (s : NodeStat). s.id == id) ss ≡ elem id (map (λ (s : NodeStat). s.id) ss)
any-ids id [] = refl
any-ids id (s ∷ ss) = ap (λ b. s.id == id || b) (any-ids id ss)

reported-elem : (g : GcState) (id : ℕ) → has_reported g id ≡ true → elem id (reporters g) ≡ true
reported-elem g id h =
    elem-distinct_ids id (map (λ (s : NodeStat). s.id) g.sweep_done)
      (sym (any-ids id g.sweep_done) ∙ h)

released_done-all :
    (n : ℕ) (done ids : List ℕ)
    → n ≤ length ids
    → ((a : ℕ) → elem a (take n ids) ≡ true → elem a done ≡ true)
    → released_done n done ids ≡ n
unfolding released_done
released_done-all zero done [] le h = refl
released_done-all (suc n) done [] le h = omega (arith, le)
released_done-all zero done (x ∷ xs) le h = refl
released_done-all (suc n) done (x ∷ xs) le h =
    let here : elem x done ≡ true = h x (ground arith) in
    let more = released_done-all n done xs (omega (arith, le)) (λ a m. h a (ground arith)) in
    let down : suc n - 1 ≡ n = omega arith in rw (here, down) (ground (arith, more))

last_place-absent :
    (pos i id : ℕ) (ids : List ℕ) → elem id ids ≡ false → last_place pos i id ids ≡ pos
unfolding last_place
last_place-absent pos i id [] h = refl
last_place-absent pos i id (x ∷ xs) h =
    let no : (x == id) ≡ false = ground arith in
    rw no (last_place-absent pos (i + 1) id xs (ground arith))

-- Of distinct ids, one among the first `n` has its place there.
last_place-take :
    (n pos i id : ℕ) (ids : List ℕ)
    → Distinct ids
    → elem id (take n ids) ≡ true
    → last_place pos i id ids < i + n
unfolding last_place
last_place-take zero pos i id ids d h = cc
last_place-take (suc n) pos i id [] d h = cc
last_place-take (suc n) pos i id (x ∷ xs) d h = elim (Bool-cases (x == id)) [
  | inl e ↦
      let absent : elem id xs ≡ false = ap (λ a. elem a xs) (sym ((==_iff x id).0 e)) ∙ d.0 in
      rw e (omega (arith, last_place-absent i (i + 1) id xs absent))
  | inr f ↦ rw f (omega (arith, last_place-take n pos (i + 1) id xs d.1 (ground arith)))
]

take-elem : (n a : ℕ) (ids : List ℕ) → elem a (take n ids) ≡ true → elem a ids ≡ true
take-elem zero a ids h = cc
take-elem (suc n) a [] h = cc
take-elem (suc n) a (x ∷ xs) h = ground (arith, take-elem n a xs)

-- Either every id passes the test or one fails it.
all_or_one :
    (p : ℕ → Bool) (ids : List ℕ)
    → ((a : ℕ) → elem a ids ≡ true → p a ≡ true) ⊎ ((a : ℕ) × (elem a ids ≡ true) × (p a ≡ false))
all_or_one p [] = inl (λ a h. cc)
all_or_one p (x ∷ xs) = elim (Bool-cases (p x)) [
  | inr f ↦ inr (x, ground arith, f)
  | inl t ↦ elim (all_or_one p xs) [
    | inr (a, m, f) ↦ inr (a, ground arith, f)
    | inl every ↦ inl (λ a m. elim (Bool-cases (x == a)) [
      | inl e ↦ ap p (sym ((==_iff x a).0 e)) ∙ t
      | inr e ↦ every a (ground arith)
    ])
  ]
]

-- The released acknowledged nodes, as observeSweep and poll bound them.
abbrev limit_of : GcState → ℕ
limit_of g = g.sweep_wave * quarter g

abbrev released_of : GcState → ℕ
released_of g = if ltb (limit_of g) (length g.acked) then limit_of g else length g.acked

released_le : (g : GcState) → (released_of g ≤ length g.acked) × (released_of g ≤ limit_of g)
released_le g = (ground arith, ground arith)

take-all : (a : ℕ) (ids : List ℕ) → elem a ids ≡ true → elem a (take (length ids) ids) ≡ true
take-all a [] h = cc
take-all a (x ∷ xs) h = ground (arith, take-all a xs)

stays :
    (c1 c2 : Bool)
    → (if c1 then closes else if c2 then releases else waits) ≡ waits
    → (c1 ≡ false) × (c2 ≡ false)
stays true c2 h = cc
stays false true h = cc
stays false false h = (refl, refl)

-- Where the released nodes have all reported, the sweep is closed or the next wave released.
moves :
    (timeout now : ℕ) (g : GcState)
    → Distinct g.acked
    → ((a : ℕ) → elem a (take (released_of g) g.acked) ≡ true → has_reported g a ≡ true)
    → observe_sweep timeout now g ≢ waits
unfolding observe_sweep
moves timeout now g d all stuck =
    let (open1, open2) =
      stays (leb (length g.acked) (length (reporters g)) || ltb timeout (now - g.snapshot_at))
        (leb (released_of g) (released_done (released_of g) (reporters g) g.acked)
          && ltb (released_of g) (length g.acked))
        stuck in
    let heard : (a : ℕ)
        → elem a (take (released_of g) g.acked) ≡ true
        → elem a (reporters g) ≡ true =
      λ a m. reported-elem g a (all a m) in
    let same = released_done-all (released_of g) (reporters g) g.acked (released_le g).0 heard in
    let full : released_of g ≡ length g.acked = ground (arith, same, (released_le g).0) in
    let enough =
      length-le-count g.acked (reporters g) d
        (λ a m. heard a (ap (λ k. elem a (take k g.acked)) full ∙ take-all a g.acked m)) in
    ground (arith, enough, count-length (λ a. elem a g.acked) (reporters g))

module _ (timeout now : ℕ) (g : GcState) where
  -- In a sweeping register whose acknowledged nodes are distinct, either observeSweep closes the sweep or
  -- releases a wave, or some acknowledged node that has not reported starts its sweep when it polls, if it
  -- is not sweeping and has not swept that epoch before.
  pub observe_sweep-poll_starts :
      is_sweeping g.phase ≡ true
      → Distinct g.acked
      → (observe_sweep timeout now g ≢ waits)
        ⊎ ((id : ℕ) × (elem id g.acked ≡ true)
            × (has_reported g id ≡ false)
            × ((swept : List ℕ) → elem g.epoch swept ≡ false → poll_starts swept false id g ≡ true))
  unfolding poll_starts contains
  observe_sweep-poll_starts s d =
      elim (all_or_one (has_reported g) (take (released_of g) g.acked)) [
        | inl every ↦ inl (moves timeout now g d every)
        | inr (id, m, missing) ↦
            let here : elem id g.acked ≡ true = take-elem (released_of g) id g.acked m in
            let place = last_place-take (released_of g) 0 0 id g.acked d m in
            let below : ltb (last_place 0 0 id g.acked) (limit_of g) ≡ true =
              lt→ltb (last_place 0 0 id g.acked) (limit_of g)
                (omega (arith, place, (released_le g).1)) in
            inr (id, here, missing, λ swept fresh. rw (s, here, fresh, missing, below) refl)
      ]
