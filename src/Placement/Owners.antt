-- ===== src/Placement/Owners.antt =====
-- The owners of a slot: at most r weighted members, from pairwise distinct failure domains.
use dstore.Prelude.{
  ℕ, ◌+◌, ◌-◌, ◌≤◌, ◌<◌, ◌≡◌, refl, sym, ◌∙◌, ap, ◌⊎◌, inl, inr, Bool, true, false, ◌||◌, List, [],
  ◌∷◌, ◌++◌, map, leb, ◌==◌, if◌then◌else◌, length, any, All, In, arith, Bool-cases, ==_iff,
}
use dstore.Bytes.{Bytes, beq_bytes, beq_bytes_iff}
use dstore.Placement.{
  Member, Entry, domain, pick, owners, rank, insert_by, sort_by, weighted, weightless, ranks_above,
  id_below, score,
}

-- Whether a domain is among those taken.
abbrev pub taken : List Bytes → Bytes → Bool
taken zones z = any (λ y. beq_bytes y z) zones

-- No entry's domain is taken before it.
abbrev pub Spread : List Bytes → List Entry → Type 0
Spread zones [] = Unit
Spread zones (e ∷ es) =
    (taken zones (domain e.member) ≡ false) × Spread (domain e.member ∷ zones) es

-- The branches of the loop's body, over its three outcomes.
body :
    (r n w : ℕ) (t : Bool) (skip pick : List Entry)
    → let out = if leb r n || w == 0 then [] else if t then skip else pick in
      ((out ≡ []) × ((r ≤ n) ⊎ (w ≡ 0)))
      ⊎ (((n < r) × (0 < w) × (t ≡ true) × (out ≡ skip))
          ⊎ ((n < r) × (0 < w) × (t ≡ false) × (out ≡ pick)))
body r n w t skip pick = ground arith

module _ (r : ℕ) where
  -- `body` for the loop itself.
  pick_cases :
      (n : ℕ) (zones : List Bytes) (e : Entry) (es : List Entry)
      → ((pick r n zones (e ∷ es) ≡ []) × ((r ≤ n) ⊎ (e.member.weight ≡ 0)))
        ⊎ (((n < r)
              × (0 < e.member.weight)
              × (taken zones (domain e.member) ≡ true)
              × (pick r n zones (e ∷ es) ≡ pick r n zones es))
            ⊎ ((n < r)
                × (0 < e.member.weight)
                × (taken zones (domain e.member) ≡ false)
                × (pick r n zones (e ∷ es) ≡ e ∷ pick r (n + 1) (domain e.member ∷ zones) es)))
  unfolding pick
  pick_cases n zones e es =
      body r n e.member.weight (taken zones (domain e.member)) (pick r n zones es)
        (e ∷ pick r (n + 1) (domain e.member ∷ zones) es)

  pub pick-nil : (n : ℕ) (zones : List Bytes) → pick r n zones [] ≡ []
  unfolding pick
  pick-nil n zones = refl

  pub length-pick :
      (n : ℕ) (zones : List Bytes) (es : List Entry) → length (pick r n zones es) ≤ r - n
  length-pick n zones [] = rw (pick-nil n zones) (omega arith)
  length-pick n zones (e ∷ es) = elim (pick_cases n zones e es) [
    | inl (p, f) ↦ rw p (omega arith)
    | inr (inl (l, w, t, p)) ↦ rw p (length-pick n zones es)
    | inr (inr (l, w, t, p)) ↦
        rw p (omega (arith, length-pick (n + 1) (domain e.member ∷ zones) es))
  ]

  pub pick-Spread :
      (n : ℕ) (zones : List Bytes) (es : List Entry) → Spread zones (pick r n zones es)
  pick-Spread n zones [] = rw (pick-nil n zones) tt
  pick-Spread n zones (e ∷ es) = elim (pick_cases n zones e es) [
    | inl (p, f) ↦ rw p tt
    | inr (inl (l, w, t, p)) ↦ rw p (pick-Spread n zones es)
    | inr (inr (l, w, t, p)) ↦ rw p (t, pick-Spread (n + 1) (domain e.member ∷ zones) es)
  ]

  pub pick-All-weighted :
      (n : ℕ) (zones : List Bytes) (es : List Entry)
      → All (λ (e : Entry). 0 < e.member.weight) (pick r n zones es)
  pick-All-weighted n zones [] = rw (pick-nil n zones) tt
  pick-All-weighted n zones (e ∷ es) = elim (pick_cases n zones e es) [
    | inl (p, f) ↦ rw p tt
    | inr (inl (l, w, t, p)) ↦ rw p (pick-All-weighted n zones es)
    | inr (inr (l, w, t, p)) ↦ rw p (w, pick-All-weighted (n + 1) (domain e.member ∷ zones) es)
  ]

abbrev pub domains : List Entry → List Bytes
domains es = map (λ (e : Entry). domain e.member) es

-- Where `d` is taken, it is so after one more, and the order of two sources does not matter.
taken_first : (a b : Bool) → a ≡ true → a || b ≡ true
taken_first a b h = ground arith

shift : (a b c : Bool) → (a || b) || c ≡ true → b || (a || c) ≡ true
shift a b c h = ground arith

step_in : (a b c : Bool) → b ≡ true → a || (b || c) ≡ true
step_in a b c h = ground arith

-- With room left, the walk of weighted entries leaves no domain out.
pick-covers :
    (r n : ℕ) (zones : List Bytes) (ws zs : List Entry) (x : Entry)
    → All (λ (e : Entry). 0 < e.member.weight) ws
    → In x ws
    → n + length (pick r n zones (ws ++ zs)) < r
    → taken zones (domain x.member) || taken (domains (pick r n zones (ws ++ zs))) (domain x.member)
      ≡ true
pick-covers r n zones [] zs x a i h = absurd i
pick-covers r n zones (e ∷ ws) zs x a i h = elim (pick_cases r n zones e (ws ++ zs)) [
  | inl (p, f) ↦ absurd (elim f [ inl q ↦ omega arith | inr q ↦ omega arith ])
  | inr (inl (l, w, t, p)) ↦ elim i [
    | inl q ↦
        taken_first (taken zones (domain x.member))
          (taken (domains (pick r n zones (e ∷ (ws ++ zs)))) (domain x.member))
          (ap (λ (y : Entry). taken zones (domain y.member)) (sym q) ∙ t)
    | inr j ↦
        rw p
          (pick-covers r n zones ws zs x a.1 j (omega (arith, ap (λ (o : List Entry). length o) p)))
  ]
  | inr (inr (l, w, t, p)) ↦ rw p (elim i [
    | inl q ↦
        step_in (taken zones (domain x.member)) (beq_bytes (domain e.member) (domain x.member))
          (taken (domains (pick r (n + 1) (domain e.member ∷ zones) (ws ++ zs))) (domain x.member))
          (ap (λ (y : Entry). beq_bytes (domain e.member) (domain y.member)) (sym q)
            ∙ (beq_bytes_iff _ _).1 refl)
    | inr j ↦
        shift (beq_bytes (domain e.member) (domain x.member)) (taken zones (domain x.member))
          (taken (domains (pick r (n + 1) (domain e.member ∷ zones) (ws ++ zs))) (domain x.member))
          (pick-covers r (n + 1) (domain e.member ∷ zones) ws zs x a.1 j
            (omega (arith, ap (λ (o : List Entry). length o) p)))
  ])
]

module _ (P : Entry → Type 0) (above : Entry → Entry → Bool) where
  All-insert_by : (e : Entry) (es : List Entry) → P e → All P es → All P (insert_by above e es)
  unfolding insert_by
  All-insert_by e [] p a = (p, tt)
  All-insert_by e (x ∷ xs) p a = elim (Bool-cases (above x e)) [
    | inl t ↦ rw t (a.0, All-insert_by e xs p a.1)
    | inr f ↦ rw f (p, a)
  ]

  All-sort_by : (es : List Entry) → All P es → All P (sort_by above es)
  unfolding sort_by
  All-sort_by [] a = tt
  All-sort_by (x ∷ xs) a = All-insert_by x (sort_by above xs) a.0 (All-sort_by xs a.1)

module _ (above : Entry → Entry → Bool) (x : Entry) where
  In-insert_by : (e : Entry) (es : List Entry) → (e ≡ x) ⊎ In x es → In x (insert_by above e es)
  unfolding insert_by
  In-insert_by e [] i = i
  In-insert_by e (y ∷ ys) i = elim (Bool-cases (above y e)) [
    | inl t ↦ rw t (elim i [
      | inl q ↦ inr (In-insert_by e ys (inl q))
      | inr (inl q) ↦ inl q
      | inr (inr j) ↦ inr (In-insert_by e ys (inr j))
    ])
    | inr f ↦ rw f i
  ]

  In-sort_by : (es : List Entry) → In x es → In x (sort_by above es)
  unfolding sort_by
  In-sort_by [] i = absurd i
  In-sort_by (y ∷ ys) (inl q) = In-insert_by y (sort_by above ys) (inl q)
  In-sort_by (y ∷ ys) (inr j) = In-insert_by y (sort_by above ys) (inr (In-sort_by ys j))

module _ (salt : ℕ → ℕ) (sl : ℕ) where
  weighted-All-weighted :
      (i : ℕ) (ms : List Member) → All (λ (e : Entry). 0 < e.member.weight) (weighted salt sl i ms)
  unfolding weighted
  weighted-All-weighted i [] = tt
  weighted-All-weighted i (m ∷ ms) = elim (Bool-cases (m.weight == 0)) [
    | inl t ↦ rw t (weighted-All-weighted (i + 1) ms)
    | inr f ↦ rw f (ground arith, weighted-All-weighted (i + 1) ms)
  ]

  In-weighted :
      (i : ℕ) (ms : List Member) (m : Member)
      → In m ms
      → 0 < m.weight
      → (e : Entry) × In e (weighted salt sl i ms) × (e.member ≡ m)
  unfolding weighted
  In-weighted i [] m j w = absurd j
  In-weighted i (x ∷ ms) m (inl q) w = elim (Bool-cases (x.weight == 0)) [
    | inl t ↦ absurd (omega (arith, ap (λ (y : Member). y.weight) q, (==_iff _ _).0 t))
    | inr f ↦ (record { index = i; member = x; l = score sl (salt x.id) }, rw f (inl refl), q)
  ]
  In-weighted i (x ∷ ms) m (inr j) w =
      let rest = In-weighted (i + 1) ms m j w in
      elim (Bool-cases (x.weight == 0)) [
        | inl t ↦ (rest.0, rw t rest.1, rest.2)
        | inr f ↦ (rest.0, rw f (inr rest.1), rest.2)
      ]

  -- The owners of a slot are at most r, all with a weight, from pairwise distinct failure domains.
  pub owners-Spread :
      (r : ℕ) (ms : List Member)
      → (length (owners salt sl r ms) ≤ r)
        × Spread [] (owners salt sl r ms)
        × All (λ (e : Entry). 0 < e.member.weight) (owners salt sl r ms)
  unfolding owners
  owners-Spread r ms = (
    omega (arith, length-pick r 0 [] (rank salt sl ms)),
    pick-Spread r 0 [] (rank salt sl ms),
    pick-All-weighted r 0 [] (rank salt sl ms),
  )

  -- Where a slot has fewer than r owners, the failure domain of every member with a weight has one.
  pub owners-covers :
      (r : ℕ) (ms : List Member) (m : Member)
      → In m ms
      → 0 < m.weight
      → length (owners salt sl r ms) < r
      → taken (domains (owners salt sl r ms)) (domain m) ≡ true
  unfolding owners rank
  owners-covers r ms m i w h =
      let (e, j, q) = In-weighted 0 ms m i w in
      ap (λ (y : Member). taken (domains (owners salt sl r ms)) (domain y)) (sym q)
      ∙ pick-covers r 0 [] (sort_by ranks_above (weighted salt sl 0 ms))
          (sort_by id_below (weightless salt 0 ms)) e
          (All-sort_by (λ (e : Entry). 0 < e.member.weight) ranks_above (weighted salt sl 0 ms)
            (weighted-All-weighted 0 ms))
          (In-sort_by ranks_above e (weighted salt sl 0 ms) j) (omega (arith, h))
