-- ===== src/Node/RefPut/Fuel.antt =====
-- A walk ends: as many levels as there are keys, and one more, are enough.
use mathlib.Core.Path.{subst}
use dstore.Prelude.{
  ℕ, zero, suc, ◌≡◌, ◌≢◌, refl, sym, ◌∙◌, ap, ◌⊎◌, inl, inr, ◌≤◌, ◌<◌, Bool, true, false, ◌||◌, not,
  Option, none, some, List, [], ◌∷◌, ◌++◌, leb, ◌==◌, ==_iff, if◌then◌else◌, elem, length, count,
  arith, Bool-cases, elem-first, elem-cons, one-elem, append-elem, or-right,
}
use dstore.View.{View}
use dstore.Node.Gc.Mark.{max_keys}
use dstore.Node.RefPut.{
  Fetched, found, absent, malformed, Walk, Walked, out_of_fuel, Level, goes, stops,
  negotiate_complete, held_unread, flush, note_key, note_keys, expand, flush_full, goes_to,
  expanded, one_level, ended, go_on, levels, no_walk, walk_complete,
}
use dstore.Node.RefPut.Results.{fetch_cases}

-- How many keys of a list are not among the seen.
abbrev unseen : List ℕ → List ℕ → ℕ
unseen all seen = count (λ k. not (elem k seen)) all

unseen-more : (k : ℕ) (seen all : List ℕ) → unseen all (k ∷ seen) ≤ unseen all seen
unseen-more k seen [] = omega arith
unseen-more k seen (x ∷ xs) = ground (arith, unseen-more k seen xs)

not-sym : (k x : ℕ) → (x == k) ≡ false → (k == x) ≡ false
not-sym k x f = elim (Bool-cases (k == x)) [
  | inl t ↦ let u : (x == k) ≡ true = (==_iff x k).1 (sym ((==_iff k x).0 t)) in cc
  | inr g ↦ g
]

unseen-less :
    (k : ℕ) (seen all : List ℕ)
    → elem k all ≡ true
    → elem k seen ≡ false
    → unseen all (k ∷ seen) < unseen all seen
unseen-less k seen [] h s = cc
unseen-less k seen (x ∷ xs) h s = elim (Bool-cases (x == k)) [
  | inl t ↦
      let e : k ≡ x = sym ((==_iff x k).0 t) in
      let u : (k == x) ≡ true = (==_iff k x).1 e in
      let n : elem x seen ≡ false = ap (λ y. elem y seen) (sym e) ∙ s in
      rw (u, n) (omega (arith, unseen-more k seen xs))
  | inr f ↦
      let rest = unseen-less k seen xs (or-right (x == k) (elem k xs) h f) s in
      let u : (k == x) ≡ false = not-sym k x f in rw u (omega (arith, rest))
]

pair_if :
    (P : Walk × List ℕ → Type 0) (b : Bool) (x y : Walk × List ℕ)
    → (b ≡ true → P x)
    → (b ≡ false → P y)
    → P (if b then x else y)
pair_if P true x y f g = f refl
pair_if P false x y f g = g refl

module _ (salt : ℕ → ℕ) (v : View) (ask : ℕ → ℕ → List ℕ → Option (List ℕ)) where
  module _ (is_leaf : ℕ → Bool) (fetch : ℕ → Fetched) (is_cached : ℕ → Bool) (all : List ℕ) where
    abbrev Within : List ℕ → Type 0
    Within ks = (k : ℕ) → elem k ks ≡ true → elem k all ≡ true

    Within-if : (b : Bool) (x y : List ℕ) → Within x → Within y → Within (if b then x else y)
    Within-if true x y f g = f
    Within-if false x y f g = g

    -- The keys noted so far, from `before` unseen keys.
    record Noted (before : ℕ) (s : Walk × List ℕ) : Type 0 where
      todo : Within (s.1)
      less : (s.1 ≡ []) ⊎ (unseen all s.0.seen < before)
      fewer : unseen all s.0.seen ≤ before

    note-Noted :
        (before k : ℕ) (s : Walk × List ℕ)
        → elem k all ≡ true
        → Noted before s
        → Noted before (note_key salt v ask is_leaf fetch is_cached k s)
    unfolding note_key
    note-Noted before k s h n =
        pair_if (Noted before) (elem k s.0.seen) s _ (λ _. n)
          (λ f.
            let l = unseen-less k s.0.seen all h f in
            let below : unseen all (k ∷ s.0.seen) < before = omega (arith, l, n.fewer) in
            record {
              todo = Within-if (is_leaf k || is_cached k) (s.1) (s.1 ++ k ∷ []) n.todo (λ c i.
                  elim (append-elem c (s.1) (k ∷ []) i) [
                    | inl x ↦ n.todo c x
                    | inr x ↦ ap (λ y. elem y all) (one-elem c k x) ∙ h
                  ]);
              less = inr below;
              fewer = omega (arith, below);
            })

    notes-Noted :
        (before : ℕ) (ks : List ℕ) (s : Walk × List ℕ)
        → Within ks
        → Noted before s
        → Noted before (note_keys salt v ask is_leaf fetch is_cached ks s)
    unfolding note_keys
    notes-Noted before [] s h n = n
    notes-Noted before (k ∷ ks) s h n =
        notes-Noted before ks (note_key salt v ask is_leaf fetch is_cached k s)
          (λ c i. h c (elem-cons c k ks i)) (note-Noted before k s (h k (elem-first k ks)) n)

    module _
        (closed : (k : ℕ) (kids : List ℕ)
          → elem k all ≡ true
          → fetch k ≡ found kids
          → Within kids) where
      -- What the results make of the next frontier.
      abbrev Results : List ℕ → Walk → List ℕ → Option (Walk × List ℕ) → Type 0
      Results ks w out none = Unit
      Results ks w out (some r) = (r.0.seen ≡ w.seen) × (Within (r.1) × ((ks ≡ []) → r.1 ≡ out))

      cons-Results :
          (k : ℕ) (ks : List ℕ) (w w' : Walk) (out out' : List ℕ) (r : Option (Walk × List ℕ))
          → w'.seen ≡ w.seen
          → Results ks w' out' r
          → Results (k ∷ ks) w out r
      cons-Results k ks w w' out out' none s h = _
      cons-Results k ks w w' out out' (some r) s (a, (b, _)) = (a ∙ s, (b, λ e. cc))

      expand-Results :
          (ks : List ℕ) (w : Walk) (out : List ℕ)
          → Within ks
          → Within out
          → Results ks w out (expand salt v ask is_leaf fetch is_cached ks w out)
      unfolding expand
      expand-Results [] w out h o = (refl, (o, λ e. refl))
      expand-Results (k ∷ ks) w out h o =
          let P : Fetched → Type 0 = λ f.
            Results (k ∷ ks) w out (elim f as (λ x. Option (Walk × List ℕ)) [
              | found kids ↦ expand salt v ask is_leaf fetch is_cached ks w (out ++ kids)
              | absent ↦
                  expand salt v ask is_leaf fetch is_cached ks (record w { unread = k ∷ w.unread })
                    out
              | malformed ↦ none
            ]) in
          let rest : Within ks = λ c i. h c (elem-cons c k ks i) in
          elim (fetch_cases (fetch k)) [
            | inl (kids, e) ↦ subst P (sym e) (
                cons-Results k ks w w out (out ++ kids) _ refl (
                  expand-Results ks w (out ++ kids) rest (λ c i. elim (append-elem c out kids i) [
                    | inl x ↦ o c x
                    | inr x ↦ closed k kids (h k (elem-first k ks)) e c x
                  ])))
            | inr (inl e) ↦
                let w' : Walk = record w { unread = k ∷ w.unread } in
                subst P (sym e)
                  (cons-Results k ks w w' out out _ refl (expand-Results ks w' out rest o))
            | inr (inr e) ↦ subst P (sym e) _
          ]

      abbrev SameSeen : Walk → Option Walk → Type 0
      SameSeen w none = Unit
      SameSeen w (some w') = w'.seen ≡ w.seen

      same_if :
          (w : Walk) (b : Bool) (x y : Option Walk)
          → SameSeen w x
          → SameSeen w y
          → SameSeen w (if b then x else y)
      same_if w true x y f g = f
      same_if w false x y f g = g

      flush-SameSeen : (w : Walk) → SameSeen w (flush salt v ask w)
      unfolding flush
      flush-SameSeen w =
          let short = negotiate_complete salt v ask w.round w.to_check in
          same_if w (length w.to_check == 0) (some w) _ refl
            (same_if w (held_unread salt v ask w.unread short w.to_check) none (some _) _ refl)

      flush_full-SameSeen :
          (w : Walk) → SameSeen w (flush_full salt v ask is_leaf fetch is_cached w)
      unfolding flush_full
      flush_full-SameSeen w =
          same_if w (leb max_keys (length w.to_check)) (flush salt v ask w) (some w)
            (flush-SameSeen w) refl

      -- A level ends the walk, has nothing below it, or has seen a new key.
      abbrev Onward : ℕ → Level → Type 0
      Onward before (stops e) = Unit
      Onward before (goes w out) = Within out × ((out ≡ []) ⊎ (unseen all w.seen < before))

      goes_to-Onward :
          (before : ℕ) (out : List ℕ) (w : Walk) (o : Option Walk)
          → SameSeen w o
          → Within out
          → (out ≡ []) ⊎ (unseen all w.seen < before)
          → Onward before (goes_to salt v ask is_leaf fetch is_cached out o)
      unfolding goes_to
      goes_to-Onward before out w none s h l = _
      goes_to-Onward before out w (some w') s h l =
          (h, elim l [ inl e ↦ inl e | inr x ↦ inr (subst (λ y. unseen all y < before) (sym s) x) ])

      expanded-Onward :
          (before : ℕ) (s : Walk × List ℕ) (r : Option (Walk × List ℕ))
          → Noted before s
          → Results (s.1) (s.0) [] r
          → Onward before (expanded salt v ask is_leaf fetch is_cached r)
      unfolding expanded
      expanded-Onward before s none n h = _
      expanded-Onward before s (some r) n (a, (b, c)) =
          goes_to-Onward before (r.1) (r.0) _ (flush_full-SameSeen (r.0)) b (elim n.less [
            | inl e ↦ inl (c e)
            | inr l ↦ inr (subst (λ y. unseen all y < before) (sym a) l)
          ])

      level-Onward :
          (front : List ℕ) (w : Walk)
          → Within front
          → Onward (unseen all w.seen) (one_level salt v ask is_leaf fetch is_cached front w)
      unfolding one_level
      level-Onward front w h =
          let n =
            notes-Noted (unseen all w.seen) front (w, []) h
              (record { todo = λ c i. cc; less = inl refl; fewer = omega arith }) in
          expanded-Onward (unseen all w.seen) _ _ n (expand-Results _ _ [] n.todo (λ c i. cc))

      abbrev Ends : Walked → Type 0
      Ends r = r ≢ out_of_fuel

      ended-Ends : (o : Option Walk) → Ends (ended salt v ask is_leaf fetch is_cached o)
      unfolding ended
      ended-Ends none = λ e. cc
      ended-Ends (some w) = λ e. cc

      next-Ends :
          (n before : ℕ) (l : Level)
          → Onward before l
          → ((out : List ℕ) (w : Walk)
              → Within out
              → (out ≡ []) ⊎ (unseen all w.seen < before)
              → Ends (levels salt v ask is_leaf fetch is_cached n out w))
          → Ends (
              go_on salt v ask is_leaf fetch is_cached
                (λ out w. levels salt v ask is_leaf fetch is_cached n out w)
                l)
      unfolding go_on
      next-Ends n before (stops e) h f = λ z. cc
      next-Ends n before (goes w out) (a, b) f = f out w a b

      levels-Ends :
          (n : ℕ) (front : List ℕ) (w : Walk)
          → Within front
          → (front ≡ []) ⊎ (unseen all w.seen < n)
          → Ends (levels salt v ask is_leaf fetch is_cached n front w)
      unfolding levels
      levels-Ends zero [] w h l = ended-Ends (flush salt v ask w)
      levels-Ends (suc n) [] w h l = ended-Ends (flush salt v ask w)
      levels-Ends zero (k ∷ ks) w h l = elim l [ inl e ↦ cc | inr x ↦ absurd (omega (arith, x)) ]
      levels-Ends (suc n) (k ∷ ks) w h l =
          next-Ends n (unseen all w.seen) _ (level-Onward (k ∷ ks) w h) (λ out x a b.
            levels-Ends n out x a (elim b [
              | inl e ↦ inl e
              | inr y ↦ inr (elim l [ inl e ↦ cc | inr z ↦ omega (arith, y, z) ])
            ]))

      unseen-length : (ks seen : List ℕ) → unseen ks seen ≤ length ks
      unseen-length [] seen = omega arith
      unseen-length (x ∷ xs) seen = ground (arith, unseen-length xs seen)

      -- Where a list has the root and with a key that can be read its children, one level for each of its
      -- keys and one more are enough for walkComplete to return.
      pub walk_complete-ends :
          (root fuel : ℕ)
          → elem root all ≡ true
          → length all < fuel
          → walk_complete salt v ask is_leaf fetch is_cached fuel root ≢ out_of_fuel
      unfolding walk_complete
      walk_complete-ends root fuel h l =
          levels-Ends fuel (root ∷ []) no_walk (λ c i. ap (λ y. elem y all) (one-elem c root i) ∙ h)
            (inr (omega (arith, l, unseen-length all [])))
