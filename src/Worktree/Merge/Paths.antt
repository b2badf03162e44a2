-- ===== src/Worktree/Merge/Paths.antt =====
-- Where the searches of Merge find nothing there is nothing: its map by path, the directories above a path and
-- the first path below a directory.
use mathlib.Core.Path.{subst}
use mathlib.Core.Option.{some-injective}
use dstore.Prelude.{
  ℕ, ◌≡◌, ◌≢◌, refl, sym, ◌∙◌, ap, ◌⊎◌, ◌↔◌, inl, inr, Bool, true, false, ◌&&◌, not, Option, none,
  some, List, [], ◌∷◌, ◌++◌, ◌==◌, if◌then◌else◌, length, In, arith, Bool-cases, Option-cases,
  some-ne-none,
}
use dstore.Bytes.{Bytes, beq_bytes, beq_bytes_iff}
use dstore.Worktree.{Change, is_dir}
use dstore.Worktree.Merge.{
  by_path, later_or, parents_from, gone_or, first_gone, gone_above, takes_dir, is_deleted,
  is_retyped,
}

-- No two changes stand at one path.
abbrev pub OnePerPath : List Change → Type 0
OnePerPath [] = Unit
OnePerPath (c ∷ cs) = ((d : Change) → In d cs → d.path ≢ c.path) × OnePerPath cs

-- `a` is a directory above `p`.
abbrev pub IsAbove : Bytes → Bytes → Type 0
IsAbove a p = (rest : Bytes) × (p ≡ a ++ 47 ∷ rest)

-- A local change takes the directory at its path away: it deletes what is there, or retypes a directory.
abbrev pub TakesDir : Change → Type 0
TakesDir l = (is_deleted l.kind ≡ true) ⊎ ((is_retyped l.kind ≡ true) × (is_dir l.old ≡ true))

pub takes_dir-TakesDir : (l : Change) → takes_dir l ≡ true ↔ TakesDir l
unfolding takes_dir
takes_dir-TakesDir l = (λ h. ground arith, λ t. ground arith)

later_or-none :
    (o : Option Change) (c : Change) (p : Bytes) → later_or o c p ≡ none → (o ≡ none) × (c.path ≢ p)
unfolding later_or
later_or-none (some l) c p h = some-ne-none h
later_or-none none c p h = elim (Bool-cases (beq_bytes c.path p)) [
  | inl e ↦ some-ne-none {a = c} (sym (rw e refl) ∙ h)
  | inr e ↦ (refl, λ same. cc ((beq_bytes_iff c.path p).1 same))
]

pub by_path-none :
    (cs : List Change) (p : Bytes) → by_path cs p ≡ none → (c : Change) → In c cs → c.path ≢ p
unfolding by_path
by_path-none [] p h c m = absurd m
by_path-none (d ∷ cs) p h c m =
    let (rest, here) = later_or-none (by_path cs p) d p h in
    elim m [
      | inl e ↦ λ same. here (ap (λ (x : Change). x.path) e ∙ same)
      | inr n ↦ by_path-none cs p rest c n
    ]

later_or-some :
    (o : Option Change) (c l : Change) (p : Bytes)
    → later_or o c p ≡ some l
    → (o ≡ some l) ⊎ ((c ≡ l) × (c.path ≡ p))
unfolding later_or
later_or-some (some x) c l p h = inl h
later_or-some none c l p h = elim (Bool-cases (beq_bytes c.path p)) [
  | inl e ↦ inr (some-injective c l (sym (rw e refl) ∙ h), (beq_bytes_iff c.path p).0 e)
  | inr e ↦ some-ne-none (sym h ∙ rw e refl)
]

pub by_path-some :
    (cs : List Change) (p : Bytes) (l : Change) → by_path cs p ≡ some l → In l cs × (l.path ≡ p)
unfolding by_path
by_path-some [] p l h = some-ne-none (sym h)
by_path-some (c ∷ cs) p l h = elim (later_or-some (by_path cs p) c l p h) [
  | inl e ↦ let (m, q) = by_path-some cs p l e in (inr m, q)
  | inr (e, q) ↦ (inl e, ap (λ (x : Change). x.path) (sym e) ∙ q)
]

beq_bytes_refl : (p : Bytes) → beq_bytes p p ≡ true
beq_bytes_refl p = (beq_bytes_iff p p).1 refl

pub by_path-at :
    (cs : List Change) (c : Change) → OnePerPath cs → In c cs → by_path cs c.path ≡ some c
unfolding by_path later_or
by_path-at [] c d m = absurd m
by_path-at (x ∷ cs) c d m = elim m [
  | inr n ↦ rw (by_path-at cs c d.1 n) refl
  | inl e ↦ elim (Option-cases (by_path cs c.path)) [
    | inr (l, h) ↦
        let (n, q) = by_path-some cs c.path l h in
        absurd (d.0 l n (q ∙ ap (λ (y : Change). y.path) (sym e)))
    | inl h ↦
        let same : beq_bytes x.path c.path ≡ true =
          (beq_bytes_iff x.path c.path).1 (ap (λ (y : Change). y.path) e) in
        rw (h, same) (ap (λ y. some y) e)
  ]
]

-- Among the directories above a path is every one that is not the root.
In-append_left : (a : Bytes) (xs ys : List Bytes) → In a xs → In a (xs ++ ys)
In-append_left a [] ys m = absurd m
In-append_left a (x ∷ xs) ys m = elim m [ inl e ↦ inl e | inr n ↦ inr (In-append_left a xs ys n) ]

In-append_last : (a : Bytes) (xs : List Bytes) → In a (xs ++ a ∷ [])
In-append_last a [] = inl refl
In-append_last a (x ∷ xs) = inr (In-append_last a xs)

pub snoc-append : (xs : Bytes) (c : ℕ) (ys : Bytes) → (xs ++ c ∷ []) ++ ys ≡ xs ++ c ∷ ys
snoc-append [] c ys = refl
snoc-append (x ∷ xs) c ys = ap (λ (l : Bytes). x ∷ l) (snoc-append xs c ys)

append-nil : (xs : Bytes) → xs ++ [] ≡ xs
append-nil [] = refl
append-nil (x ∷ xs) = ap (λ (l : Bytes). x ∷ l) (append-nil xs)

In-if :
    (b : Bool) (a : Bytes) (xs : List Bytes) (p : Bytes)
    → In a xs
    → In a (if b then xs ++ p ∷ [] else xs)
In-if true a xs p m = In-append_left a xs (p ∷ []) m
In-if false a xs p m = m

parents_from-In :
    (seen a rest : Bytes) → (seen ++ a) ≢ [] → In (seen ++ a) (parents_from seen (a ++ 47 ∷ rest))
unfolding parents_from
parents_from-In [] [] rest ne = absurd (ne refl)
parents_from-In (s ∷ ss) [] rest ne =
    let long : (length (s ∷ ss) == 0) ≡ false = ground arith in
    let more = parents_from ((s ∷ ss) ++ 47 ∷ []) rest in
    subst
      (λ p. In p (if 47 == 47 && not (length (s ∷ ss) == 0) then more ++ (s ∷ ss) ∷ [] else more))
      (sym (append-nil (s ∷ ss))) (rw long (In-append_last (s ∷ ss) more))
parents_from-In seen (c ∷ cs) rest ne =
    let more = parents_from (seen ++ c ∷ []) (cs ++ 47 ∷ rest) in
    let there : In (seen ++ c ∷ cs) more =
      subst (λ p. In p more) (snoc-append seen c cs)
        (parents_from-In (seen ++ c ∷ []) cs rest (λ e. ne (sym (snoc-append seen c cs) ∙ e))) in
    In-if (c == 47 && not (length seen == 0)) (seen ++ c ∷ cs) more seen there

In-append_split : (a b : Bytes) (xs : List Bytes) → In a (xs ++ b ∷ []) → In a xs ⊎ (b ≡ a)
In-append_split a b [] m = elim m [ inl e ↦ inr e | inr n ↦ absurd n ]
In-append_split a b (x ∷ xs) m = elim m [
  | inl e ↦ inl (inl e)
  | inr n ↦ elim (In-append_split a b xs n) [ inl k ↦ inl (inr k) | inr e ↦ inr e ]
]

In-if_split :
    (t : Bool) (a b : Bytes) (xs : List Bytes)
    → In a (if t then xs ++ b ∷ [] else xs)
    → In a xs ⊎ ((t ≡ true) × (b ≡ a))
In-if_split true a b xs m = elim (In-append_split a b xs m) [
  | inl k ↦ inl k
  | inr e ↦ inr (refl, e)
]
In-if_split false a b xs m = inl m

-- The paths that goneAbove looks at are directories above the path.
pub parents_from-IsAbove : (seen p a : Bytes) → In a (parents_from seen p) → IsAbove a (seen ++ p)
unfolding parents_from
parents_from-IsAbove seen [] a m = absurd m
parents_from-IsAbove seen (c ∷ cs) a m =
    elim (In-if_split (c == 47 && not (length seen == 0)) a seen _ m) [
      | inl k ↦
          let (rest, e) = parents_from-IsAbove (seen ++ c ∷ []) cs a k in
          (rest, sym (snoc-append seen c cs) ∙ e)
      | inr (t, e) ↦
          let slash : c ≡ 47 = ground arith in
          (cs, ap (λ x. seen ++ x ∷ cs) slash ∙ ap (λ x. x ++ 47 ∷ cs) e)
    ]

gone_or-none :
    (o rest : Option Change)
    → gone_or o rest ≡ none
    → (rest ≡ none) × ((l : Change) → o ≡ some l → takes_dir l ≡ false)
unfolding gone_or
gone_or-none none rest h = (h, λ l e. some-ne-none (sym e))
gone_or-none (some x) rest h = elim (Bool-cases (takes_dir x)) [
  | inl t ↦ some-ne-none {a = x} (sym (rw t refl) ∙ h)
  | inr f ↦ (sym (rw f refl) ∙ h, λ l e. ap takes_dir (sym (some-injective x l e)) ∙ f)
]

first_gone-none :
    (local : List Change) (ps : List Bytes)
    → first_gone local ps ≡ none
    → (a : Bytes) → In a ps
    → (l : Change) → by_path local a ≡ some l
    → takes_dir l ≡ false
unfolding first_gone
first_gone-none local [] h a m l e = absurd m
first_gone-none local (p ∷ ps) h a m l e =
    let (rest, here) = gone_or-none (by_path local p) (first_gone local ps) h in
    elim m [
      | inl q ↦ here l (ap (λ x. by_path local x) q ∙ e)
      | inr n ↦ first_gone-none local ps rest a n l e
    ]

-- Where goneAbove finds nothing, no local change takes away a directory above the path.
pub gone_above-none :
    (local : List Change) (p : Bytes)
    → OnePerPath local
    → gone_above local p ≡ none
    → (l : Change) → In l local
    → l.path ≢ []
    → IsAbove l.path p
    → takes_dir l ≡ false
unfolding gone_above
gone_above-none local p d h l m ne (rest, e) =
    first_gone-none local (parents_from [] p) h l.path
      (subst (λ q. In l.path (parents_from [] q)) (sym e) (parents_from-In [] l.path rest ne)) l
      (by_path-at local l d m)
