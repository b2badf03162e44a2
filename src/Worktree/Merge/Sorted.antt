-- ===== src/Worktree/Merge/Sorted.antt =====
-- The sorted paths of Merge: a search for the first path below a directory misses none.
use mathlib.Core.Path.{subst}
use mathlib.Core.Option.{some-injective}
use dstore.Prelude.{
  ◌≡◌, refl, sym, ◌∙◌, ap, ◌⊎◌, inl, inr, Bool, true, false, Option, none, some, List, [], ◌∷◌,
  ◌++◌, if◌then◌else◌, In, arith, Bool-cases, some-ne-none,
}
use dstore.Bytes.{Bytes, compare_bytes}
use dstore.Worktree.{Change}
use dstore.Worktree.Merge.{
  is_below, insert_path, sort_paths, has_prefix, search_prefix, found_path, first_below,
}
use dstore.Worktree.Merge.Paths.{IsAbove, by_path-none}

abbrev sorts_before : Bytes → Bytes → Bool
sorts_before a b = is_below (compare_bytes a b)

sorts_before-asym : (a b : Bytes) → sorts_before a b ≡ true → sorts_before b a ≡ false
unfolding compare_bytes
sorts_before-asym [] [] h = refl
sorts_before-asym [] (y ∷ ys) h = refl
sorts_before-asym (x ∷ xs) [] h = cc
sorts_before-asym (x ∷ xs) (y ∷ ys) h = ground (arith, sorts_before-asym xs ys)

not_before_nil : (a : Bytes) → sorts_before a [] ≡ false
unfolding compare_bytes
not_before_nil [] = refl
not_before_nil (x ∷ xs) = refl

sorts_before_trans :
    (a b c : Bytes) → sorts_before a b ≡ false → sorts_before b c ≡ false → sorts_before a c ≡ false
unfolding compare_bytes
sorts_before_trans a b [] h k = not_before_nil a
sorts_before_trans a [] (z ∷ zs) h k = cc
sorts_before_trans [] (y ∷ ys) (z ∷ zs) h k = cc
sorts_before_trans (x ∷ xs) (y ∷ ys) (z ∷ zs) h k = ground (arith, sorts_before_trans xs ys zs)

-- A path is not below its own prefix, and above each path that is neither below the prefix nor has it.
sorts_before-prefix : (x rest : Bytes) → sorts_before (x ++ rest) x ≡ false
unfolding compare_bytes
sorts_before-prefix [] [] = refl
sorts_before-prefix [] (r ∷ rs) = refl
sorts_before-prefix (c ∷ cs) rest = ground (arith, sorts_before-prefix cs rest)

sorts_before-unprefixed :
    (x rest p : Bytes)
    → sorts_before p x ≡ false
    → has_prefix x p ≡ false
    → sorts_before (x ++ rest) p ≡ true
unfolding compare_bytes has_prefix
sorts_before-unprefixed [] rest p h k = cc
sorts_before-unprefixed (c ∷ cs) rest [] h k = cc
sorts_before-unprefixed (c ∷ cs) rest (q ∷ qs) h k =
    ground (arith, sorts_before-unprefixed cs rest qs)

has_prefix-append : (x rest : Bytes) → has_prefix x (x ++ rest) ≡ true
unfolding has_prefix
has_prefix-append [] rest = refl
has_prefix-append (c ∷ cs) rest = ground (arith, has_prefix-append cs rest)

abbrev SortedPaths : List Bytes → Type 0
SortedPaths [] = Unit
SortedPaths (p ∷ ps) = ((q : Bytes) → In q ps → sorts_before q p ≡ false) × SortedPaths ps

placed-In :
    (p q x : Bytes) (xs rest : List Bytes) (b : Bool)
    → (In q rest → (p ≡ q) ⊎ In q xs)
    → In q (if b then x ∷ rest else p ∷ x ∷ xs)
    → (p ≡ q) ⊎ In q (x ∷ xs)
placed-In p q x xs rest false k m = m
placed-In p q x xs rest true k (inl e) = inr (inl e)
placed-In p q x xs rest true k (inr n) = elim (k n) [ inl e ↦ inl e | inr m ↦ inr (inr m) ]

insert_path-In : (p q : Bytes) (ps : List Bytes) → In q (insert_path p ps) → (p ≡ q) ⊎ In q ps
unfolding insert_path
insert_path-In p q [] m = m
insert_path-In p q (x ∷ xs) m =
    placed-In p q x xs (insert_path p xs) (sorts_before x p) (insert_path-In p q xs) m

In-placed :
    (p q x : Bytes) (xs rest : List Bytes) (b : Bool)
    → ((p ≡ q) ⊎ In q xs → In q rest)
    → (p ≡ q) ⊎ In q (x ∷ xs)
    → In q (if b then x ∷ rest else p ∷ x ∷ xs)
In-placed p q x xs rest false k m = m
In-placed p q x xs rest true k (inl e) = inr (k (inl e))
In-placed p q x xs rest true k (inr (inl e)) = inl e
In-placed p q x xs rest true k (inr (inr n)) = inr (k (inr n))

In-insert_path : (p q : Bytes) (ps : List Bytes) → (p ≡ q) ⊎ In q ps → In q (insert_path p ps)
unfolding insert_path
In-insert_path p q [] m = m
In-insert_path p q (x ∷ xs) m =
    In-placed p q x xs (insert_path p xs) (sorts_before x p) (In-insert_path p q xs) m

placed-SortedPaths :
    (p x : Bytes) (xs rest : List Bytes) (b : Bool)
    → sorts_before x p ≡ b
    → SortedPaths (x ∷ xs)
    → SortedPaths rest
    → ((q : Bytes) → In q rest → (p ≡ q) ⊎ In q xs)
    → SortedPaths (if b then x ∷ rest else p ∷ x ∷ xs)
placed-SortedPaths p x xs rest true h s t k = (
  λ q m. elim (k q m) [
    | inl e ↦ ap (λ y. sorts_before y x) (sym e) ∙ sorts_before-asym x p h
    | inr n ↦ s.0 q n
  ],
  t,
)
placed-SortedPaths p x xs rest false h s t k = (
  λ q m. elim m [
    | inl e ↦ ap (λ y. sorts_before y p) (sym e) ∙ h
    | inr n ↦ sorts_before_trans q x p (s.0 q n) h
  ],
  s,
)

insert_path-SortedPaths :
    (p : Bytes) (ps : List Bytes) → SortedPaths ps → SortedPaths (insert_path p ps)
unfolding insert_path
insert_path-SortedPaths p [] s = (λ q m. absurd m, _)
insert_path-SortedPaths p (x ∷ xs) s =
    placed-SortedPaths p x xs (insert_path p xs) (sorts_before x p) refl s
      (insert_path-SortedPaths p xs s.1) (λ q. insert_path-In p q xs)

sort_paths-SortedPaths : (cs : List Change) → SortedPaths (sort_paths cs)
unfolding sort_paths
sort_paths-SortedPaths [] = _
sort_paths-SortedPaths (c ∷ cs) =
    insert_path-SortedPaths c.path (sort_paths cs) (sort_paths-SortedPaths cs)

sort_paths-In :
    (cs : List Change) (q : Bytes) → In q (sort_paths cs) → (c : Change) × In c cs × (c.path ≡ q)
unfolding sort_paths
sort_paths-In [] q m = absurd m
sort_paths-In (c ∷ cs) q m = elim (insert_path-In c.path q (sort_paths cs) m) [
  | inl e ↦ (c, inl refl, e)
  | inr n ↦ let (d, k, e) = sort_paths-In cs q n in (d, inr k, e)
]

In-sort_paths : (cs : List Change) (c : Change) → In c cs → In c.path (sort_paths cs)
unfolding sort_paths
In-sort_paths [] c m = absurd m
In-sort_paths (d ∷ cs) c m =
    In-insert_path d.path c.path (sort_paths cs)
      (elim m [ inl e ↦ inl (ap (λ (x : Change). x.path) e) | inr n ↦ inr (In-sort_paths cs c n) ])

search_prefix-In : (x q : Bytes) (ps : List Bytes) → search_prefix x ps ≡ some q → In q ps
unfolding search_prefix
search_prefix-In x q [] h = some-ne-none (sym h)
search_prefix-In x q (p ∷ ps) h = elim (Bool-cases (sorts_before p x)) [
  | inl b ↦ inr (search_prefix-In x q ps (sym (rw b refl) ∙ h))
  | inr b ↦ elim (Bool-cases (has_prefix x p)) [
    | inl t ↦ inl (some-injective p q (sym (rw (b, t) refl) ∙ h))
    | inr f ↦ some-ne-none (sym h ∙ rw (b, f) refl)
  ]
]

pub search_prefix-prefix :
    (x q : Bytes) (ps : List Bytes) → search_prefix x ps ≡ some q → has_prefix x q ≡ true
unfolding search_prefix
search_prefix-prefix x q [] h = some-ne-none (sym h)
search_prefix-prefix x q (p ∷ ps) h = elim (Bool-cases (sorts_before p x)) [
  | inl b ↦ search_prefix-prefix x q ps (sym (rw b refl) ∙ h)
  | inr b ↦ elim (Bool-cases (has_prefix x p)) [
    | inl t ↦ ap (has_prefix x) (sym (some-injective p q (sym (rw (b, t) refl) ∙ h))) ∙ t
    | inr f ↦ some-ne-none (sym h ∙ rw (b, f) refl)
  ]
]

pub has_prefix-rest : (x p : Bytes) → has_prefix x p ≡ true → (rest : Bytes) × (p ≡ x ++ rest)
unfolding has_prefix
has_prefix-rest [] p h = (p, refl)
has_prefix-rest (x ∷ xs) [] h = cc
has_prefix-rest (x ∷ xs) (c ∷ cs) h =
    let t : has_prefix xs cs ≡ true = ground arith in
    let same : c ≡ x = ground arith in
    let (rest, e) = has_prefix-rest xs cs t in (rest, ap (λ y. y ∷ cs) same ∙ ap (λ y. x ∷ y) e)

search_prefix-none :
    (x rest : Bytes) (ps : List Bytes)
    → SortedPaths ps
    → search_prefix x ps ≡ none
    → In (x ++ rest) ps
    → ⊥
unfolding search_prefix
search_prefix-none x rest [] s h m = m
search_prefix-none x rest (p ∷ ps) s h m = elim (Bool-cases (sorts_before p x)) [
  | inl b ↦ elim m [
    | inl e ↦ cc (sorts_before-prefix x rest, ap (λ y. sorts_before y x) e)
    | inr n ↦ search_prefix-none x rest ps s.1 (sym (rw b refl) ∙ h) n
  ]
  | inr b ↦ elim (Bool-cases (has_prefix x p)) [
    | inl t ↦ some-ne-none {a = p} (sym (rw (b, t) refl) ∙ h)
    | inr f ↦ elim m [
      | inl e ↦ cc (has_prefix-append x rest, ap (has_prefix x) e)
      | inr n ↦ cc (s.0 (x ++ rest) n, sorts_before-unprefixed x rest p b f)
    ]
  ]
]

found_path-none :
    (local : List Change) (o : Option Bytes)
    → found_path local o ≡ none
    → ((q : Bytes) → o ≡ some q → In q (sort_paths local))
    → o ≡ none
unfolding found_path
found_path-none local none h k = refl
found_path-none local (some q) h k =
    let (c, m, e) = sort_paths-In local q (k q refl) in absurd (by_path-none local q h c m e)

snoc-append : (p : Bytes) (rest : Bytes) → (p ++ 47 ∷ []) ++ rest ≡ p ++ 47 ∷ rest
snoc-append [] rest = refl
snoc-append (x ∷ xs) rest = ap (λ (l : Bytes). x ∷ l) (snoc-append xs rest)

-- Where firstBelow finds nothing, no local change is below the directory.
pub first_below-none :
    (local : List Change) (p : Bytes)
    → first_below local p ≡ none
    → (l : Change) → In l local
    → IsAbove p l.path
    → ⊥
unfolding first_below
first_below-none local p h l m (rest, e) =
    let x = p ++ 47 ∷ [] in
    let missing =
      found_path-none local (search_prefix x (sort_paths local)) h
        (λ q. search_prefix-In x q (sort_paths local)) in
    search_prefix-none x rest (sort_paths local) (sort_paths-SortedPaths local) missing (
      subst (λ q. In q (sort_paths local)) (e ∙ sym (snoc-append p rest)) (In-sort_paths local l m))
