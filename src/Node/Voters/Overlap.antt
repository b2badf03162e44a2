-- ===== src/Node/Voters/Overlap.antt =====
-- A voter change keeps the quorums of the old and the new voters in touch, and a later holder finds the
-- old voters again.
use dstore.Prelude.{
  ℕ, ◌+◌, ◌^◌, ◌≤◌, ◌<◌, ◌≡◌, refl, sym, ◌∙◌, ap, inl, inr, Bool, true, false, ◌&&◌, ◌||◌, not,
  List, [], ◌∷◌, ◌++◌, map, ◌==◌, ==_iff, length, length-append, length-map, any, elem, count,
  Distinct, arith, Bool-cases,
}
use dstore.Bytes.{be_bytes, be_value-be_bytes}
use dstore.View.{View, Voter, quorum, voter_ids, is_voter}
use dstore.View.Laws.{count_overlap, count_pos}
use dstore.Catalog.Views.{edited}
use dstore.Node.Transition.{changed_concurrently, is_pending}
use dstore.Node.Transition.Builds.{remove_id}
use dstore.Node.Transition.Evolves.{guard-edited, edited-injective}
use dstore.Node.Voters.{add_voter, remove_voter, without, resumed_old}

abbrev ids_of : List Voter → List ℕ
ids_of vs = map (λ (x : Voter). x.id) vs

-- The voters `xs` are a quorum of those of `v`.
abbrev pub IsQuorum : View → List ℕ → Type 0
IsQuorum v xs = quorum v ≤ count (λ a. elem a xs) (voter_ids v)

any-elem : (id : ℕ) (vs : List Voter) → any (λ (x : Voter). x.id == id) vs ≡ elem id (ids_of vs)
any-elem id [] = refl
any-elem id (x ∷ xs) = ap (λ b. x.id == id || b) (any-elem id xs)

count-snoc : (p : ℕ → Bool) (xs : List ℕ) (a : ℕ) → count p (xs ++ a ∷ []) ≤ count p xs + 1
count-snoc p [] a = ground arith
count-snoc p (x ∷ xs) a = omega (arith, count-snoc p xs a)

count-without :
    (p : ℕ → Bool) (id : ℕ) (vs : List Voter)
    → count p (ids_of (without id vs)) ≤ count p (ids_of vs)
count-without p id [] = omega arith
count-without p id (x ∷ xs) = ground (arith, count-without p id xs)

without-eq : (id : ℕ) (vs : List Voter) → elem id (ids_of vs) ≡ false → without id vs ≡ vs
without-eq id [] h = refl
without-eq id (x ∷ xs) h = ground (arith, without-eq id xs)

length-without :
    (id : ℕ) (vs : List Voter)
    → Distinct (ids_of vs)
    → elem id (ids_of vs) ≡ true
    → length (without id vs) + 1 ≡ length vs
length-without id [] d h = cc
length-without id (x ∷ xs) d h = elim (Bool-cases (x.id == id)) [
  | inl t ↦
      let absent : elem id (ids_of xs) ≡ false =
        ap (λ (a : ℕ). elem a (ids_of xs)) (sym ((==_iff x.id id).0 t)) ∙ d.0 in
      rw (t, without-eq id xs absent) (omega arith)
  | inr f ↦ rw f (omega (arith, length-without id xs d.1 (ground arith)))
]

-- Sets that count for more than there are voters share one.
overlap :
    (v : View) (xs ys : List ℕ)
    → length (voter_ids v)
      < count (λ a. elem a xs) (voter_ids v) + count (λ a. elem a ys) (voter_ids v)
    → (a : ℕ) × (elem a xs ≡ true) × (elem a ys ≡ true)
overlap v xs ys h =
    let (a, both) =
      count_pos (λ a. elem a xs && elem a ys) (voter_ids v)
        (omega (arith, count_overlap (λ a. elem a xs) (λ a. elem a ys) (voter_ids v))) in
    (a, ground arith, ground arith)

length-ids_of : (v : View) → length (voter_ids v) ≡ length v.voters
unfolding voter_ids
length-ids_of v = length-map (λ (x : Voter). x.id) v.voters

not_voter_elem :
    (id : ℕ) (v : View)
    → (is_pending v.voter_sync || is_voter v id) ≡ false
    → elem id (voter_ids v) ≡ false
unfolding is_voter voter_ids
not_voter_elem id v h = sym (any-elem id v.voters) ∙ ground arith

voter_elem :
    (id : ℕ) (v : View)
    → (is_pending v.voter_sync || not (is_voter v id)) ≡ false
    → elem id (voter_ids v) ≡ true
unfolding is_voter voter_ids
voter_elem id v h = sym (any-elem id v.voters) ∙ ground arith

map-snoc : (vs : List Voter) (x : Voter) → ids_of (vs ++ x ∷ []) ≡ ids_of vs ++ x.id ∷ []
map-snoc [] x = refl
map-snoc (y ∷ ys) x = ap (λ (l : List ℕ). y.id ∷ l) (map-snoc ys x)

module _ (id : ℕ) (v after : View) (bump : Bool) where
  added :
      add_voter id v ≡ edited after bump
      → (elem id (voter_ids v) ≡ false)
        × (voter_ids after ≡ voter_ids v ++ id ∷ [])
        × (length after.voters ≡ length v.voters + 1)
        × (after.voter_sync_add ≡ true)
        × (after.voter_sync_target ≡ be_bytes 32 id)
  unfolding add_voter voter_ids
  added h =
      let (c, g) =
        guard-edited (is_pending v.voter_sync || is_voter v id) changed_concurrently _ after bump
          h in
      let (a, _) = edited-injective g in
      let same = ap (λ (x : View). ids_of x.voters) a in
      (
        not_voter_elem id v c,
        sym same ∙ map-snoc v.voters _,
        ap (λ (x : View). length x.voters) (sym a) ∙ length-append v.voters _,
        ap (λ (x : View). x.voter_sync_add) (sym a),
        ap (λ (x : View). x.voter_sync_target) (sym a),
      )

  removed :
      remove_voter id v ≡ edited after bump
      → (elem id (voter_ids v) ≡ true)
        × (after.voters ≡ without id v.voters)
        × (after.voter_sync_add ≡ false)
        × (after.voter_sync_target ≡ be_bytes 32 id)
  unfolding remove_voter
  removed h =
      let (c, g) =
        guard-edited (is_pending v.voter_sync || not (is_voter v id)) changed_concurrently _ after
          bump h in
      let (a, _) = edited-injective g in
      (
        voter_elem id v c,
        ap (λ (x : View). x.voters) (sym a),
        ap (λ (x : View). x.voter_sync_add) (sym a),
        ap (λ (x : View). x.voter_sync_target) (sym a),
      )

  -- A quorum of the voters before one is added and a quorum of those after share a voter.
  pub add_voter-IsQuorum :
      (xs ys : List ℕ)
      → add_voter id v ≡ edited after bump
      → IsQuorum v xs
      → IsQuorum after ys
      → (a : ℕ) × (elem a xs ≡ true) × (elem a ys ≡ true)
  unfolding quorum
  add_voter-IsQuorum xs ys h qx qy =
      let (_, ids, n, _, _) = added h in
      overlap v xs ys (
        omega (
          arith,
          n,
          length-ids_of v,
          ap (λ (l : List ℕ). count (λ a. elem a ys) l) ids,
          count-snoc (λ a. elem a ys) (voter_ids v) id,
        ))

  -- Where the voters are distinct, a quorum of those before one is removed and a quorum of those after share a
  -- voter.
  pub remove_voter-IsQuorum :
      (xs ys : List ℕ)
      → Distinct (voter_ids v)
      → remove_voter id v ≡ edited after bump
      → IsQuorum v xs
      → IsQuorum after ys
      → (a : ℕ) × (elem a xs ≡ true) × (elem a ys ≡ true)
  unfolding quorum voter_ids
  remove_voter-IsQuorum xs ys d h qx qy =
      let (m, vs, _, _) = removed h in
      overlap v xs ys (
        omega (
          arith,
          length-ids_of v,
          ap (λ (l : List Voter). length l) vs,
          length-without id v.voters d m,
          ap (λ (l : List Voter). count (λ a. elem a ys) (ids_of l)) vs,
          count-without (λ a. elem a ys) id v.voters,
        ))

remove_id-snoc : (id : ℕ) (xs : List ℕ) → elem id xs ≡ false → remove_id id (xs ++ id ∷ []) ≡ xs
unfolding remove_id
remove_id-snoc id [] h = ground arith
remove_id-snoc id (x ∷ xs) h = ground (arith, remove_id-snoc id xs)

-- A holder that takes over an addition finds the voters before it.
pub resumed_old-add_voter :
    (id : ℕ) (v after : View) (bump : Bool)
    → id < 2 ^ 256
    → add_voter id v ≡ edited after bump
    → resumed_old after ≡ voter_ids v
unfolding resumed_old
resumed_old-add_voter id v after bump small h =
    let (absent, ids, _, add, target) = added id v after bump h in
    rw (add, target, ids, be_value-be_bytes 32 id (omega arith))
      (remove_id-snoc id (voter_ids v) absent)
