-- ===== src/Client/Rank.antt =====
-- client/rank.go: rttClass and rankOwners. Durations are nanoseconds; the penalties and the measured paths
-- are parameters. sort.SliceStable is a stable insertion sort.
use mathlib.Core.Path.{subst}
use mathlib.Core.List.Permᴰ
use mathlib.Core.List.{Permᴰ}
use mathlib.Core.List.Permᴰ.{cons, swap, trans}
use dstore.Prelude.{
  ℕ, ◌+◌, ◌*◌, ◌≡◌, ◌≤◌, ◌<◌, ◌⊎◌, ◌∙◌, sym, ap, All, leb, count, inl, inr, refl, Bool, true, false,
  not, Option, none, some, List, [], ◌∷◌, map, ltb, ◌==◌, if◌then◌else◌, arith, Bool-cases,
}

pub record PathInfo : Type 0 where
  pub direct : Bool
  pub rtt : ℕ

unfoldable pub rtt_class : ℕ → ℕ
rtt_class rtt =
    if ltb rtt (5 * 1000000)
    then 0
    else if ltb rtt (25 * 1000000)
    then 1
    else if ltb rtt (100 * 1000000)
    then 2
    else 3

pub record Scored : Type 0 where
  pub id : ℕ
  pub pen : ℕ
  pub relay : ℕ
  pub class : ℕ
  pub pos : ℕ

-- The comparison of the sort.
unfoldable pub before : Scored → Scored → Bool
before a b =
    if not (a.pen == b.pen)
    then ltb a.pen b.pen
    else if not (a.relay == b.relay)
    then ltb a.relay b.relay
    else if not (a.class == b.class)
    then ltb a.class b.class
    else ltb a.pos b.pos

-- Before the first entry that does not come before the new one.
unfoldable pub insert : Scored → List Scored → List Scored
insert e [] = e ∷ []
insert e (x ∷ xs) = if before x e then x ∷ insert e xs else e ∷ x ∷ xs

unfoldable pub sort_scored : List Scored → List Scored
unfolding insert
sort_scored [] = []
sort_scored (x ∷ xs) = insert x (sort_scored xs)

module _ (penalty : ℕ → ℕ) (path : ℕ → Option PathInfo) where
  unfoldable score_at : ℕ → ℕ → Option PathInfo → Scored
  unfolding rtt_class
  score_at i id none = record { id = id; pen = penalty id; relay = 0; class = 0; pos = i }
  score_at i id (some p) = record {
    id = id;
    pen = penalty id;
    relay = if p.direct then 0 else 1;
    class = rtt_class p.rtt;
    pos = i;
  }

  unfoldable pub score_owner : ℕ → ℕ → Scored
  unfolding score_at
  score_owner i id = score_at i id (path id)

  unfoldable pub score_owners : ℕ → List ℕ → List Scored
  unfolding score_owner
  score_owners i [] = []
  score_owners i (id ∷ ids) = score_owner i id ∷ score_owners (i + 1) ids

  unfoldable pub rank_owners : List ℕ → List ℕ
  unfolding score_owners sort_scored
  rank_owners ids = map (λ (s : Scored). s.id) (sort_scored (score_owners 0 ids))

-- Every entry is not after the next one.
abbrev Ordered : List Scored → Type 0
Ordered [] = Unit
Ordered (x ∷ []) = Unit
Ordered (x ∷ y ∷ ys) = (before y x ≡ false) × Ordered (y ∷ ys)

before_asym : (a b : Scored) → before a b ≡ true → before b a ≡ false
unfolding before
before_asym a b h = ground arith

Ordered-cons :
    (x e y : Scored) (ys : List Scored)
    → before y x ≡ false
    → before x e ≡ true
    → Ordered (insert e (y ∷ ys))
    → Ordered (x ∷ insert e (y ∷ ys))
unfolding insert
Ordered-cons x e y ys o t = elim (Bool-cases (before y e)) [
  | inl t' ↦ rw t' (λ r. (o, r))
  | inr f' ↦ rw f' (λ r. (before_asym x e t, r))
]

Ordered-insert : (e : Scored) (xs : List Scored) → Ordered xs → Ordered (insert e xs)
unfolding insert
Ordered-insert e [] o = tt
Ordered-insert e (x ∷ []) o = elim (Bool-cases (before x e)) [
  | inl t ↦ rw t (before_asym x e t, tt)
  | inr f ↦ rw f (f, tt)
]
Ordered-insert e (x ∷ y ∷ ys) o = elim (Bool-cases (before x e)) [
  | inr f ↦ rw f (f, o)
  | inl t ↦ rw t (Ordered-cons x e y ys o.0 t (Ordered-insert e (y ∷ ys) o.1))
]

Ordered-sort_scored : (xs : List Scored) → Ordered (sort_scored xs)
unfolding sort_scored
Ordered-sort_scored [] = tt
Ordered-sort_scored (x ∷ xs) = Ordered-insert x (sort_scored xs) (Ordered-sort_scored xs)

-- The owners with their places in the order given.
abbrev pub places : ℕ → List ℕ → List (ℕ × ℕ)
places i [] = []
places i (id ∷ ids) = (i, id) ∷ places (i + 1) ids

place_of : Scored → ℕ × ℕ
place_of s = (s.pos, s.id)

Perm-insert :
    (e : Scored) (xs : List Scored)
    → Permᴰ (map place_of (insert e xs)) (place_of e ∷ map place_of xs)
unfolding insert
Perm-insert e [] = Permᴰ.refl (place_of e ∷ [])
Perm-insert e (x ∷ xs) = elim (Bool-cases (before x e)) [
  | inl t ↦ rw t (trans (cons refl (Perm-insert e xs)) (swap refl refl))
  | inr f ↦ rw f (Permᴰ.refl (place_of e ∷ place_of x ∷ map place_of xs))
]

Perm-sort_scored : (xs : List Scored) → Permᴰ (map place_of (sort_scored xs)) (map place_of xs)
unfolding sort_scored
Perm-sort_scored [] = Permᴰ.refl []
Perm-sort_scored (x ∷ xs) = trans (Perm-insert x (sort_scored xs)) (cons refl (Perm-sort_scored xs))

abbrev pub limits : List ℕ
limits = 5000000 ∷ 25000000 ∷ 100000000 ∷ []

module _ (penalty : ℕ → ℕ) (path : ℕ → Option PathInfo) where
  -- What is known of an owner: whether it is reached through a relay, and how many of the limits of 5, 25 and
  -- 100 milliseconds its round trip reaches.
  abbrev pub relayed : Option PathInfo → Bool
  relayed none = false
  relayed (some p) = not p.direct

  abbrev pub reached : Option PathInfo → ℕ
  reached none = 0
  reached (some p) = count (λ t. leb t p.rtt) limits

  -- Of two owners at their places, the first is not after the second: by penalty, then direct before relayed,
  -- then by round trip, then by place.
  abbrev pub NotAfter : ℕ × ℕ → ℕ × ℕ → Type 0
  NotAfter a b =
      (penalty a.1 < penalty b.1)
      ⊎ ((penalty a.1 ≡ penalty b.1)
          × (((relayed (path a.1) ≡ false) × (relayed (path b.1) ≡ true))
              ⊎ ((relayed (path a.1) ≡ relayed (path b.1))
                  × ((reached (path a.1) < reached (path b.1))
                      ⊎ ((reached (path a.1) ≡ reached (path b.1)) × (a.0 ≤ b.0))))))

  abbrev pub InOrder : List (ℕ × ℕ) → Type 0
  InOrder [] = Unit
  InOrder (x ∷ []) = Unit
  InOrder (x ∷ y ∷ ys) = NotAfter x y × InOrder (y ∷ ys)

  record Fields (s : Scored) : Type 0 where
    pen : s.pen ≡ penalty s.id
    relay : s.relay ≡ (if relayed (path s.id) then 1 else 0)
    class : s.class ≡ reached (path s.id)

  rtt_class-reached : (rtt : ℕ) → rtt_class rtt ≡ count (λ t. leb t rtt) limits
  unfolding rtt_class
  rtt_class-reached rtt = ground arith

  if-not : (b : Bool) → ◌≡◌ {A = ℕ} (if b then 0 else 1) (if not b then 1 else 0)
  if-not true = refl
  if-not false = refl

  score_at-Fields :
      (i id : ℕ) (o : Option PathInfo)
      → path id ≡ o
      → Fields (score_at penalty path i id o) × (place_of (score_at penalty path i id o) ≡ (i, id))
  unfolding score_at place_of
  score_at-Fields i id none e = (record { pen = refl; relay = rw e refl; class = rw e refl }, refl)
  score_at-Fields i id (some p) e = (
    record { pen = refl; relay = rw e (if-not p.direct); class = rw e (rtt_class-reached p.rtt) },
    refl,
  )

  score_owner-Fields :
      (i id : ℕ)
      → Fields (score_owner penalty path i id)
        × (place_of (score_owner penalty path i id) ≡ (i, id))
  unfolding score_owner
  score_owner-Fields i id = score_at-Fields i id (path id) refl

  score_owners-Fields : (i : ℕ) (ids : List ℕ) → All Fields (score_owners penalty path i ids)
  unfolding score_owners
  score_owners-Fields i [] = tt
  score_owners-Fields i (id ∷ ids) = ((score_owner-Fields i id).0, score_owners-Fields (i + 1) ids)

  score_owners-places :
      (i : ℕ) (ids : List ℕ) → map place_of (score_owners penalty path i ids) ≡ places i ids
  unfolding score_owners
  score_owners-places i [] = refl
  score_owners-places i (id ∷ ids) =
      ap (λ x. x ∷ map place_of (score_owners penalty path (i + 1) ids)) (score_owner-Fields i id).1
      ∙ ap (λ xs. (i, id) ∷ xs) (score_owners-places (i + 1) ids)

  insert-Fields :
      (e : Scored) (xs : List Scored) → Fields e → All Fields xs → All Fields (insert e xs)
  unfolding insert
  insert-Fields e [] f a = (f, tt)
  insert-Fields e (x ∷ xs) f a = elim (Bool-cases (before x e)) [
    | inl t ↦ rw t (a.0, insert-Fields e xs f a.1)
    | inr n ↦ rw n (f, a)
  ]

  sort_scored-Fields : (xs : List Scored) → All Fields xs → All Fields (sort_scored xs)
  unfolding sort_scored
  sort_scored-Fields [] a = tt
  sort_scored-Fields (x ∷ xs) a = insert-Fields x (sort_scored xs) a.0 (sort_scored-Fields xs a.1)

  relay_lt : (a b : Bool) → (if a then 1 else 0) < (if b then 1 else 0) → (a ≡ false) × (b ≡ true)
  relay_lt true b h = absurd (ground arith)
  relay_lt false true h = (refl, refl)
  relay_lt false false h = absurd (omega (arith, h))

  relay_eq : (a b : Bool) → ◌≡◌ {A = ℕ} (if a then 1 else 0) (if b then 1 else 0) → a ≡ b
  relay_eq true true h = refl
  relay_eq true false h = absurd (omega (arith, h))
  relay_eq false true h = absurd (omega (arith, h))
  relay_eq false false h = refl

  -- The comparison, field by field.
  before-parts :
      (x y : Scored)
      → before y x ≡ false
      → (x.pen < y.pen)
        ⊎ ((x.pen ≡ y.pen)
            × ((x.relay < y.relay)
                ⊎ ((x.relay ≡ y.relay)
                    × ((x.class < y.class) ⊎ ((x.class ≡ y.class) × (x.pos ≤ y.pos))))))
  unfolding before
  before-parts x y h = ground arith

  before-NotAfter :
      (x y : Scored) → Fields x → Fields y → before y x ≡ false → NotAfter (place_of x) (place_of y)
  unfolding place_of
  before-NotAfter x y f g h = elim (before-parts x y h) [
    | inl p ↦ inl (omega (arith, p, f.pen, g.pen))
    | inr (p, r) ↦ inr (
      sym f.pen ∙ p ∙ g.pen,
      elim r [
        | inl l ↦ inl (
            relay_lt (relayed (path x.id)) (relayed (path y.id))
              (omega (arith, l, f.relay, g.relay)))
        | inr (q, c) ↦ inr (
          relay_eq (relayed (path x.id)) (relayed (path y.id)) (sym f.relay ∙ q ∙ g.relay),
          elim c [
            | inl l ↦ inl (omega (arith, l, f.class, g.class))
            | inr (e, w) ↦ inr (sym f.class ∙ e ∙ g.class, w)
          ],
        )
      ],
    )
  ]

  Ordered-InOrder : (xs : List Scored) → All Fields xs → Ordered xs → InOrder (map place_of xs)
  Ordered-InOrder [] a o = tt
  Ordered-InOrder (x ∷ []) a o = tt
  Ordered-InOrder (x ∷ y ∷ ys) a o =
      (before-NotAfter x y a.0 a.1.0 o.0, Ordered-InOrder (y ∷ ys) a.1 o.1)

  ids_of :
      (xs : List Scored)
      → map (λ (s : Scored). s.id) xs ≡ map (λ (p : ℕ × ℕ). p.1) (map place_of xs)
  unfolding place_of
  ids_of [] = refl
  ids_of (x ∷ xs) = ap (λ l. x.id ∷ l) (ids_of xs)

  -- The owners returned are those given, none lost or repeated, and each is not after the next: by penalty,
  -- then direct before relayed, then by how many limits the round trip reaches, then by the place it was
  -- given at.
  pub rank_owners-Ordered :
      (ids : List ℕ)
      → (ranked : List (ℕ × ℕ)) × InOrder ranked
        × Permᴰ ranked (places 0 ids)
        × (rank_owners penalty path ids ≡ map (λ (p : ℕ × ℕ). p.1) ranked)
  unfolding rank_owners
  rank_owners-Ordered ids =
      let scored = score_owners penalty path 0 ids in
      let sorted = sort_scored scored in
      (
        map place_of sorted,
        Ordered-InOrder sorted (sort_scored-Fields scored (score_owners-Fields 0 ids))
            (Ordered-sort_scored scored),
        subst (Permᴰ (map place_of sorted)) (score_owners-places 0 ids) (Perm-sort_scored scored),
        ids_of sorted,
      )
