-- ===== src/Worktree/Merge/Covers.antt =====
-- Nothing incoming is lost by Merge.
use mathlib.Core.Option.{some-injective}
use mathlib.Core.Path.{subst}
use dstore.Prelude.{
  ◌≡◌, refl, sym, ◌∙◌, ap, ◌⊎◌, inl, inr, Bool, true, false, ◌&&◌, ◌||◌, not, Option, none, some,
  List, [], ◌∷◌, ◌++◌, if◌then◌else◌, In, Bool-cases, some-ne-none,
}
use dstore.Bytes.{Bytes}
use dstore.Worktree.{Change, is_dir}
use dstore.Worktree.Merge.{
  Conflict, Verdict, applies, drops, conflicts, by_path, is_deleted, is_retyped, is_meta, takes_dir,
  gone_or, first_gone, gone_above, parents_from, first_below, found_path, both_equivalent, against,
  below_retyped, alone, judge_at, judge, file_verdict, merge,
}
use dstore.Worktree.Merge.Paths.{
  TakesDir, IsAbove, takes_dir-TakesDir, by_path-some, snoc-append, parents_from-IsAbove,
}
use dstore.Worktree.Merge.Sorted.{search_prefix-prefix, has_prefix-rest}

-- A local change takes away a directory above the path of `c`.
abbrev GoneAbove : Change → Change → Type 0
GoneAbove c l = TakesDir l × IsAbove l.path c.path

-- What a deletion finds already gone: a local change has deleted its path, or has deleted or retyped a
-- directory above it.
abbrev pub Gone : Change → Change → Type 0
Gone c l = ((is_deleted l.kind ≡ true) × (l.path ≡ c.path)) ⊎ GoneAbove c l

-- What an incoming change runs into: a local change at its path, one that takes away a directory above it, or
-- one below a directory that it retypes.
abbrev pub Against : Change → Change → Type 0
Against c l =
    (l.path ≡ c.path)
    ⊎ (GoneAbove c l ⊎ ((is_retyped c.kind ≡ true) × (is_dir c.old ≡ true) × IsAbove c.path l.path))

abbrev Origin : List Change → Change → Verdict → Type 0
Origin local c applies = Unit
Origin local c (conflicts l) = In l local × Against c l
Origin local c drops = (is_deleted c.kind ≡ true) × (l : Change) × In l local × Gone c l

Origin-if :
    (local : List Change) (c : Change) (b : Bool) (x y : Verdict)
    → (b ≡ true → Origin local c x)
    → (b ≡ false → Origin local c y)
    → Origin local c (if b then x else y)
Origin-if local c true x y s t = s refl
Origin-if local c false x y s t = t refl

and-parts : (a b : Bool) → (a && b) ≡ true → (a ≡ true) × (b ≡ true)
and-parts true b h = (refl, h)
and-parts false b h = cc

against-Origin :
    (local : List Change) (l c : Change)
    → In l local
    → l.path ≡ c.path
    → Origin local c (against l c)
unfolding against
against-Origin local l c m q =
    Origin-if local c (is_meta l.kind) applies _ (λ e. _)
      (λ e.
        Origin-if local c (is_deleted l.kind && is_deleted c.kind) drops _
          (λ k.
            let (a, b) = and-parts (is_deleted l.kind) (is_deleted c.kind) k in
            (b, l, m, inl (a, q)))
          (λ k.
            Origin-if local c (is_deleted l.kind || is_deleted c.kind) (conflicts l) _
              (λ n. (m, inl q))
              (λ n.
                Origin-if local c (both_equivalent l.new c.new) applies (conflicts l) (λ p. _)
                  (λ p. (m, inl q)))))

gone_or-some :
    (o rest : Option Change) (l : Change)
    → gone_or o rest ≡ some l
    → ((o ≡ some l) × (takes_dir l ≡ true)) ⊎ (rest ≡ some l)
unfolding gone_or
gone_or-some none rest l h = inr h
gone_or-some (some x) rest l h = elim (Bool-cases (takes_dir x)) [
  | inl t ↦
      let e : some x ≡ some l = sym (rw t refl) ∙ h in
      inl (e, ap takes_dir (sym (some-injective x l e)) ∙ t)
  | inr f ↦ inr (sym (rw f refl) ∙ h)
]

first_gone-some :
    (local : List Change) (ps : List Bytes) (l : Change)
    → first_gone local ps ≡ some l
    → In l local × (takes_dir l ≡ true) × In l.path ps
unfolding first_gone
first_gone-some local [] l h = some-ne-none (sym h)
first_gone-some local (p ∷ ps) l h =
    elim (gone_or-some (by_path local p) (first_gone local ps) l h) [
      | inl (e, t) ↦ let (m, q) = by_path-some local p l e in (m, t, inl (sym q))
      | inr e ↦ let (m, t, i) = first_gone-some local ps l e in (m, t, inr i)
    ]

found_path-some :
    (local : List Change) (o : Option Bytes) (l : Change)
    → found_path local o ≡ some l
    → In l local × (o ≡ some l.path)
unfolding found_path
found_path-some local none l h = some-ne-none (sym h)
found_path-some local (some q) l h =
    let (m, e) = by_path-some local q l h in (m, ap (λ x. some x) (sym e))

first_below-some :
    (local : List Change) (p : Bytes) (l : Change)
    → first_below local p ≡ some l
    → In l local × IsAbove p l.path
unfolding first_below
first_below-some local p l h =
    let (m, e) = found_path-some local _ l h in
    let (rest, r) =
      has_prefix-rest (p ++ 47 ∷ []) l.path (search_prefix-prefix (p ++ 47 ∷ []) l.path _ e) in
    (m, (rest, r ∙ snoc-append p 47 rest))

below_retyped-Origin :
    (local : List Change) (c : Change) (o : Option Change)
    → ((l : Change) → o ≡ some l → In l local × Against c l)
    → Origin local c (below_retyped o)
unfolding below_retyped
below_retyped-Origin local c none k = _
below_retyped-Origin local c (some l) k = k l refl

not-true : (b : Bool) → not b ≡ false → b ≡ true
not-true true h = refl
not-true false h = cc

alone-Origin :
    (local : List Change) (o : Option Change) (c : Change)
    → ((l : Change) → o ≡ some l → In l local × GoneAbove c l)
    → Origin local c (alone local o c)
unfolding alone first_below
alone-Origin local (some l) c k =
    let (m, g) = k l refl in
    Origin-if local c (not (is_deleted c.kind)) (conflicts l) drops (λ e. (m, inr (inl g)))
      (λ e. (not-true (is_deleted c.kind) e, l, m, inr g))
alone-Origin local none c k =
    Origin-if local c (is_retyped c.kind && is_dir c.old) (below_retyped (first_below local c.path))
      applies
      (λ e.
        let (r, d) = and-parts (is_retyped c.kind) (is_dir c.old) e in
        below_retyped-Origin local c (first_below local c.path)
          (λ l h. let (m, a) = first_below-some local c.path l h in (m, inr (inr (r, d, a)))))
      (λ e. _)

judge_at-Origin :
    (local : List Change) (o : Option Change) (c : Change)
    → by_path local c.path ≡ o
    → Origin local c (judge_at local o c)
unfolding judge_at gone_above
judge_at-Origin local (some l) c e =
    let (m, q) = by_path-some local c.path l e in against-Origin local l c m q
judge_at-Origin local none c e = alone-Origin local (gone_above local c.path) c (λ l h.
    let (m, t, i) = first_gone-some local (parents_from [] c.path) l h in
    (m, ((takes_dir-TakesDir l).0 t, parents_from-IsAbove [] c.path l.path i)))

-- What becomes of an incoming change.
abbrev pub Fate : List Change → Change → List Change × List Conflict → Type 0
Fate local c r =
    In c (r.0)
    ⊎ (((l : Change) × In l local
          × Against c l
          × In (record { path = c.path; local = l; incoming = c }) (r.1))
        ⊎ ((is_deleted c.kind ≡ true) × (l : Change) × In l local × Gone c l))

filed-Fate :
    (local : List Change) (c : Change) (v : Verdict) (r : List Change × List Conflict)
    → Origin local c v
    → Fate local c (file_verdict c v r)
unfolding file_verdict
filed-Fate local c applies r o = inl (inl refl)
filed-Fate local c drops r (d, l, m, g) = inr (inr (d, l, m, g))
filed-Fate local c (conflicts l) r (m, a) = inr (inl (l, m, a, inl refl))

kept-Fate :
    (local : List Change) (c x : Change) (v : Verdict) (r : List Change × List Conflict)
    → Fate local c r
    → Fate local c (file_verdict x v r)
unfolding file_verdict
kept-Fate local c x applies r (inl m) = inl (inr m)
kept-Fate local c x applies r (inr o) = inr o
kept-Fate local c x drops r o = o
kept-Fate local c x (conflicts l) r (inl m) = inl m
kept-Fate local c x (conflicts l) r (inr (inl (k, m, a, n))) = inr (inl (k, m, a, inr n))
kept-Fate local c x (conflicts l) r (inr (inr o)) = inr (inr o)

-- Every incoming change is applied; or is in conflict with a local change at its path, with one that takes
-- away a directory above it, or with one below a directory that it retypes; or is a deletion of a path that a
-- local change has deleted, or above which a local change has deleted or retyped a directory.
pub merge-Fate :
    (local incoming : List Change) (c : Change)
    → In c incoming
    → Fate local c (merge local incoming)
unfolding merge judge
merge-Fate local [] c m = absurd m
merge-Fate local (x ∷ xs) c m = elim m [
  | inr n ↦ kept-Fate local c x (judge local x) (merge local xs) (merge-Fate local xs c n)
  | inl e ↦
      subst (λ y. Fate local y (merge local (x ∷ xs))) e
        (filed-Fate local x (judge local x) (merge local xs)
          (judge_at-Origin local (by_path local x.path) x refl))
]
