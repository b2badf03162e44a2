-- ===== src/Node/RefPut/Sample.antt =====
-- The sample of missing keys is empty only where no key is short.
use mathlib.Core.Path.{subst}
use dstore.Prelude.{
  ℕ, zero, suc, ◌≡◌, ◌≢◌, refl, sym, ap, inl, inr, Bool, true, false, Option, none, some, List, [],
  ◌∷◌, ◌++◌, leb, ltb, ◌==◌, if◌then◌else◌, elem, length, arith,
}
use dstore.View.{View}
use dstore.Node.Gc.Mark.{max_keys}
use dstore.Node.RefPut.{
  Fetched, found, absent, malformed, Walk, Walked, walked, failed, out_of_fuel, Level, goes, stops,
  negotiate_complete, add_missing, held_unread, flush, note_key, note_keys, expand, flush_full,
  goes_to, expanded, one_level, ended, go_on, levels, no_walk, walk_complete,
}
use dstore.Node.RefPut.Ends.{walk_if}
use dstore.Node.RefPut.Results.{fetch_cases}

-- A walk that still counts what its sample holds.
abbrev Counted : Walk → Type 0
Counted w = w.missing ≡ [] → w.shortfall ≡ 0

abbrev CountedAfter : Option Walk → Type 0
CountedAfter none = Unit
CountedAfter (some w) = Counted w

append-some : (xs : List ℕ) (k : ℕ) → xs ++ k ∷ [] ≢ []
append-some [] k = λ h. cc
append-some (x ∷ xs) k = λ h. cc

module _ (salt : ℕ → ℕ) (v : View) (ask : ℕ → ℕ → List ℕ → Option (List ℕ)) where
  some_if : (b : Bool) (x y : List ℕ) → x ≢ [] → y ≢ [] → (if b then x else y) ≢ []
  some_if true x y f g = f
  some_if false x y f g = g

  add_missing-some : (ks ms : List ℕ) → ms ≢ [] → add_missing salt v ask ms ks ≢ []
  unfolding add_missing
  add_missing-some [] ms h = h
  add_missing-some (k ∷ ks) ms h =
      add_missing-some ks _ (some_if (ltb (length ms) 1024) (ms ++ k ∷ []) ms (append-some ms k) h)

  add_missing-nil : (ks ms : List ℕ) → add_missing salt v ask ms ks ≡ [] → (ms ≡ []) × (ks ≡ [])
  unfolding add_missing
  add_missing-nil [] ms h = (h, refl)
  add_missing-nil (k ∷ ks) [] h = absurd (add_missing-some ks (k ∷ []) (λ e. cc) h)
  add_missing-nil (k ∷ ks) (m ∷ ms) h = absurd (add_missing-some (k ∷ ks) (m ∷ ms) (λ e. cc) h)

  flush-Counted : (w : Walk) → Counted w → CountedAfter (flush salt v ask w)
  unfolding flush
  flush-Counted w c =
      let short = negotiate_complete salt v ask w.round w.to_check in
      walk_if CountedAfter (length w.to_check == 0) (some w) _ (λ _. c)
        (λ _.
          walk_if CountedAfter (held_unread salt v ask w.unread short w.to_check) none (some _)
            (λ _. _)
            (λ _ h.
              let (a, b) = add_missing-nil short w.missing h in
              let l : length short ≡ 0 = ap (λ (x : List ℕ). length x) b in omega (arith, c a, l)))

  module _ (is_leaf : ℕ → Bool) (fetch : ℕ → Fetched) (is_cached : ℕ → Bool) where
    Counted-if :
        (b : Bool) (x y : Walk × List ℕ)
        → Counted (x.0)
        → Counted (y.0)
        → Counted ((if b then x else y).0)
    Counted-if true x y f g = f
    Counted-if false x y f g = g

    note_keys-Counted :
        (ks : List ℕ) (s : Walk × List ℕ)
        → Counted (s.0)
        → Counted ((note_keys salt v ask is_leaf fetch is_cached ks s).0)
    unfolding note_keys note_key
    note_keys-Counted [] s c = c
    note_keys-Counted (k ∷ ks) s c = note_keys-Counted ks _ (Counted-if (elem k s.0.seen) s _ c c)

    abbrev CountedPair : Option (Walk × List ℕ) → Type 0
    CountedPair none = Unit
    CountedPair (some r) = Counted (r.0)

    expand-Counted :
        (ks : List ℕ) (w : Walk) (out : List ℕ)
        → Counted w
        → CountedPair (expand salt v ask is_leaf fetch is_cached ks w out)
    unfolding expand
    expand-Counted [] w out c = c
    expand-Counted (k ∷ ks) w out c =
        let P : Fetched → Type 0 = λ f. CountedPair (elim f as (λ x. Option (Walk × List ℕ)) [
          | found kids ↦ expand salt v ask is_leaf fetch is_cached ks w (out ++ kids)
          | absent ↦
              expand salt v ask is_leaf fetch is_cached ks (record w { unread = k ∷ w.unread }) out
          | malformed ↦ none
        ]) in
        elim (fetch_cases (fetch k)) [
          | inl (kids, e) ↦ subst P (sym e) (expand-Counted ks w (out ++ kids) c)
          | inr (inl e) ↦
              subst P (sym e) (expand-Counted ks (record w { unread = k ∷ w.unread }) out c)
          | inr (inr e) ↦ subst P (sym e) _
        ]

    abbrev CountedLevel : Level → Type 0
    CountedLevel (stops e) = Unit
    CountedLevel (goes w out) = Counted w

    goes_to-Counted :
        (out : List ℕ) (o : Option Walk)
        → CountedAfter o
        → CountedLevel (goes_to salt v ask is_leaf fetch is_cached out o)
    unfolding goes_to
    goes_to-Counted out none c = _
    goes_to-Counted out (some w) c = c

    expanded-Counted :
        (r : Option (Walk × List ℕ))
        → CountedPair r
        → CountedLevel (expanded salt v ask is_leaf fetch is_cached r)
    unfolding expanded flush_full
    expanded-Counted none c = _
    expanded-Counted (some r) c = goes_to-Counted (r.1) _ (
        walk_if CountedAfter (leb max_keys (length r.0.to_check)) (flush salt v ask (r.0))
          (some (r.0)) (λ _. flush-Counted (r.0) c) (λ _. c))

    abbrev CountedEnd : Walked → Type 0
    CountedEnd (walked w) = Counted w
    CountedEnd (failed e) = Unit
    CountedEnd out_of_fuel = Unit

    ended-Counted :
        (o : Option Walk) → CountedAfter o → CountedEnd (ended salt v ask is_leaf fetch is_cached o)
    unfolding ended
    ended-Counted none c = _
    ended-Counted (some w) c = c

    go_on-Counted :
        (n : ℕ) (l : Level)
        → CountedLevel l
        → ((out : List ℕ) (w : Walk)
            → Counted w
            → CountedEnd (levels salt v ask is_leaf fetch is_cached n out w))
        → CountedEnd (
            go_on salt v ask is_leaf fetch is_cached
              (λ out w. levels salt v ask is_leaf fetch is_cached n out w)
              l)
    unfolding go_on
    go_on-Counted n (stops e) c f = _
    go_on-Counted n (goes w out) c f = f out w c

    one_level-Counted :
        (front : List ℕ) (w : Walk)
        → Counted w
        → CountedLevel (one_level salt v ask is_leaf fetch is_cached front w)
    unfolding one_level
    one_level-Counted front w c =
        let s = note_keys salt v ask is_leaf fetch is_cached front (w, []) in
        expanded-Counted (expand salt v ask is_leaf fetch is_cached (s.1) (s.0) [])
          (expand-Counted (s.1) (s.0) [] (note_keys-Counted front (w, []) c))

    levels-Counted :
        (n : ℕ) (front : List ℕ) (w : Walk)
        → Counted w
        → CountedEnd (levels salt v ask is_leaf fetch is_cached n front w)
    unfolding levels
    levels-Counted zero [] w c = ended-Counted (flush salt v ask w) (flush-Counted w c)
    levels-Counted (suc n) [] w c = ended-Counted (flush salt v ask w) (flush-Counted w c)
    levels-Counted zero (k ∷ ks) w c = _
    levels-Counted (suc n) (k ∷ ks) w c =
        go_on-Counted n (one_level salt v ask is_leaf fetch is_cached (k ∷ ks) w)
          (one_level-Counted (k ∷ ks) w c) (λ out x d. levels-Counted n out x d)

    pub walk_complete-missing :
        (fuel root : ℕ) (w : Walk)
        → walk_complete salt v ask is_leaf fetch is_cached fuel root ≡ walked w
        → w.missing ≡ []
        → w.shortfall ≡ 0
    unfolding walk_complete
    walk_complete-missing fuel root w e =
        subst CountedEnd e (levels-Counted fuel (root ∷ []) no_walk (λ h. refl))
