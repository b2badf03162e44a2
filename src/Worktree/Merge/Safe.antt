-- ===== src/Worktree/Merge/Safe.antt =====
-- What Merge applies does not undo a local change of content, and nothing incoming is lost.
use mathlib.Core.Path.{subst}
use mathlib.Core.Option.{some-injective}
use dstore.Prelude.{
  ◌≡◌, ◌≢◌, refl, sym, ◌∙◌, ap, ◌⊎◌, inl, inr, Bool, true, false, ◌&&◌, not, Option, none, some,
  List, [], ◌∷◌, if◌then◌else◌, In, arith, Bool-cases,
}
use dstore.Bytes.{Bytes}
use dstore.Worktree.{Change, is_dir}
use dstore.Worktree.Merge.{
  Conflict, Verdict, applies, drops, conflicts, by_path, is_deleted, is_retyped, is_meta,
  gone_above, first_below, both_equivalent, against, below_retyped, alone, judge_at, judge,
  file_verdict, merge,
}
use dstore.Worktree.Merge.Paths.{
  TakesDir, takes_dir-TakesDir, OnePerPath, IsAbove, by_path-none, by_path-some, by_path-at,
  gone_above-none,
}
use dstore.Worktree.Merge.Sorted.{first_below-none}

-- A local change at a path.
abbrev pub HasAt : List Change → Bytes → Type 0
HasAt local p = (m : Change) × In m local × (m.path ≡ p)

-- Local change `l` admits that incoming change `c` is applied.
pub record Admits (local : List Change) (c l : Change) : Type 0 where
  pub same_path :
      l.path ≡ c.path
      → (is_meta l.kind ≡ true)
        ⊎ ((is_deleted l.kind ≡ false)
            × (is_deleted c.kind ≡ false)
            × (both_equivalent l.new c.new ≡ true))
  pub above : l.path ≢ [] → IsAbove l.path c.path → TakesDir l → HasAt local c.path
  pub below :
      (is_retyped c.kind && is_dir c.old) ≡ true → IsAbove c.path l.path → HasAt local c.path

is_applied : Verdict → Bool
is_applied applies = true
is_applied _ = false

against-applied :
    (l c : Change)
    → is_applied (against l c) ≡ true
    → (is_meta l.kind ≡ true)
      ⊎ ((is_deleted l.kind ≡ false)
          × (is_deleted c.kind ≡ false)
          × (both_equivalent l.new c.new ≡ true))
unfolding against is_applied
against-applied l c h = elim (Bool-cases (is_meta l.kind)) [
  | inl t ↦ inl t
  | inr f ↦ inr (ground arith)
]

below_retyped-applied : (o : Option Change) → is_applied (below_retyped o) ≡ true → o ≡ none
unfolding below_retyped is_applied
below_retyped-applied none h = refl
below_retyped-applied (some l) h = cc

never_applied : (b : Bool) (l : Change) → is_applied (if b then conflicts l else drops) ≡ true → ⊥
unfolding is_applied
never_applied true l h = cc
never_applied false l h = cc

first_applied :
    (b : Bool) (x y : Verdict)
    → is_applied (if b then x else y) ≡ true
    → b ≡ true
    → is_applied x ≡ true
first_applied true x y h e = h
first_applied false x y h e = cc

alone-applied :
    (local : List Change) (o : Option Change) (c : Change)
    → is_applied (alone local o c) ≡ true
    → (o ≡ none) × ((is_retyped c.kind && is_dir c.old) ≡ true → first_below local c.path ≡ none)
unfolding alone
alone-applied local (some l) c h = absurd (never_applied (not (is_deleted c.kind)) l h)
alone-applied local none c h = (
  refl,
  λ e. below_retyped-applied (first_below local c.path) (
      first_applied (is_retyped c.kind && is_dir c.old) (below_retyped (first_below local c.path))
        applies h e),
)

judge_at-Admits :
    (local : List Change) (o : Option Change) (c : Change)
    → OnePerPath local
    → by_path local c.path ≡ o
    → is_applied (judge_at local o c) ≡ true
    → (l : Change) → In l local
    → Admits local c l
unfolding judge_at
judge_at-Admits local (some x) c d e h l m =
    let (n, q) = by_path-some local c.path x e in
    record {
      same_path = λ p.
          let same : x ≡ l =
            some-injective x l (sym e ∙ ap (by_path local) (sym p) ∙ by_path-at local l d m) in
          subst
            (λ y.
              (is_meta y.kind ≡ true)
              ⊎ ((is_deleted y.kind ≡ false)
                  × (is_deleted c.kind ≡ false)
                  × (both_equivalent y.new c.new ≡ true)))
            same (against-applied x c h);
      above = λ ne a t. (x, n, q);
      below = λ r a. (x, n, q);
    }
judge_at-Admits local none c d e h l m =
    let (gone, low) = alone-applied local (gone_above local c.path) c h in
    record {
      same_path = λ p. absurd (by_path-none local c.path e l m p);
      above =
          λ ne a t. cc (gone_above-none local c.path d gone l m ne a, (takes_dir-TakesDir l).1 t);
      below = λ r a. absurd (first_below-none local c.path (low r) l m a);
    }

applied-In :
    (c x : Change) (v : Verdict) (done : List Change × List Conflict)
    → In c ((file_verdict x v done).0)
    → ((x ≡ c) × (is_applied v ≡ true)) ⊎ In c (done.0)
unfolding file_verdict is_applied
applied-In c x applies done (inl e) = inl (e, refl)
applied-In c x applies done (inr n) = inr n
applied-In c x drops done m = inr m
applied-In c x (conflicts l) done m = inr m

merge-applied :
    (local incoming : List Change) (c : Change)
    → In c ((merge local incoming).0)
    → In c incoming × (is_applied (judge local c) ≡ true)
unfolding merge
merge-applied local [] c m = absurd m
merge-applied local (x ∷ xs) c m = elim (applied-In c x (judge local x) (merge local xs) m) [
  | inl (e, h) ↦ (inl e, ap (λ y. is_applied (judge local y)) (sym e) ∙ h)
  | inr n ↦ let (k, h) = merge-applied local xs c n in (inr k, h)
]

-- With one local change for each path at most, a change that Merge applies is an incoming one, and each
-- local change admits it: one at its path is of metadata, or leaves an entry equivalent to the incoming
-- one; one that takes away a directory above it, or one below a directory that it retypes, stands beside a
-- local change at its very path.
pub merge-Admits :
    (local incoming : List Change) (c : Change)
    → OnePerPath local
    → In c ((merge local incoming).0)
    → In c incoming × ((l : Change) → In l local → Admits local c l)
unfolding judge
merge-Admits local incoming c d m =
    let (k, h) = merge-applied local incoming c m in
    (k, λ l. judge_at-Admits local (by_path local c.path) c d refl h l)
