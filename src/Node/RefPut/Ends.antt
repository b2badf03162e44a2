-- ===== src/Node/RefPut/Ends.antt =====
-- The levels of a walk, up to its end.
use mathlib.Core.Path.{subst}
use mathlib.Core.Option.{some-injective}
use dstore.Prelude.{
  ℕ, zero, suc, ◌≡◌, refl, sym, ◌∙◌, ap, ◌⊎◌, inl, inr, Bool, true, false, ◌&&◌, ◌||◌, Option, none,
  some, List, [], ◌∷◌, leb, ◌==◌, ==_iff, if◌then◌else◌, elem, length, arith, cons-elem, length-nil,
}
use dstore.View.{View}
use dstore.Node.Gc.Mark.{max_keys}
use dstore.Node.RefPut.{
  Fetched, found, absent, malformed, Walk, walked, failed, out_of_fuel, is_short, short_of,
  negotiate_complete, held_unread, flush, note_keys, flush_full, Level, goes, stops, goes_to,
  expanded, one_level, ended, go_on, levels,
}
use dstore.Node.RefPut.Checked.{IsHeld, Under, top, down, Good, note_keys-Good}
use dstore.Node.RefPut.Results.{After, expand-Good}

length-if :
    (b : Bool) (x : ℕ) (xs : List ℕ)
    → (length (if b then x ∷ xs else xs) == 0) ≡ true
    → (b ≡ false) × ((length xs == 0) ≡ true)
length-if true x xs h = absurd (ground arith)
length-if false x xs h = (refl, h)

pub walk-same : (w w' : Walk) → walked w ≡ walked w' → w ≡ w'
walk-same w w' e = ap (λ x. elim x [ walked y ↦ y | failed y ↦ w | out_of_fuel ↦ w ]) e

pub kids-same : (ks ks' : List ℕ) → found ks ≡ found ks' → ks ≡ ks'
kids-same ks ks' e = ap (λ x. elim x [ found y ↦ y | absent ↦ ks | malformed ↦ ks ]) e

pub walk_if :
    (P : Option Walk → Type 0) (b : Bool) (x y : Option Walk)
    → (b ≡ true → P x)
    → (b ≡ false → P y)
    → P (if b then x else y)
walk_if P true x y f g = f refl
walk_if P false x y f g = g refl

or-neither : (a b : Bool) → (a && true || b) ≡ false → (a ≡ false) × (b ≡ false)
or-neither true b h = cc
or-neither false b h = (refl, h)

module _ (salt : ℕ → ℕ) (v : View) (ask : ℕ → ℕ → List ℕ → Option (List ℕ)) where
  module _ (is_leaf : ℕ → Bool) (fetch : ℕ → Fetched) (is_cached : ℕ → Bool) (start : ℕ) where
    abbrev pub Ok : List ℕ → List ℕ → Walk → Type 0
    Ok todo front w = Good salt v ask is_leaf fetch is_cached start todo front w

    -- A batch of which nothing is short, and which holds nothing unread.
    none-short :
        (round : ℕ) (keys ks : List ℕ)
        → (length (short_of salt v ask round keys ks) == 0) ≡ true
        → (k : ℕ) → elem k ks ≡ true
        → is_short salt v ask round keys k ≡ false
    unfolding short_of
    none-short round keys [] h k i = cc
    none-short round keys (x ∷ xs) h k i =
        let (f, r) =
          length-if (is_short salt v ask round keys x) x (short_of salt v ask round keys xs) h in
        elim (cons-elem k x xs i) [
          | inl q ↦ ap (λ y. is_short salt v ask round keys y) q ∙ f
          | inr e ↦ none-short round keys xs r k e
        ]

    none-unread :
        (unread short ks : List ℕ)
        → (length short == 0) ≡ true
        → held_unread salt v ask unread short ks ≡ false
        → (k : ℕ) → elem k ks ≡ true
        → elem k unread ≡ false
    unfolding held_unread
    none-unread unread short [] z h k i = cc
    none-unread unread [] (x ∷ xs) z h k i =
        let (f, r) = or-neither (elem x unread) (held_unread salt v ask unread [] xs) h in
        elim (cons-elem k x xs i) [
          | inl q ↦ ap (λ y. elem y unread) q ∙ f
          | inr e ↦ none-unread unread [] xs z r k e
        ]
    none-unread unread (y ∷ ys) (x ∷ xs) z h k i = absurd (ground arith)

    -- What a flush leaves where nothing it asks about is short.
    empty-Ok :
        (front : List ℕ) (w w' : Walk)
        → Ok [] front w
        → w'.seen ≡ w.seen
        → ((k : ℕ) → elem k w.to_check ≡ true → IsHeld salt v ask k × (elem k w.unread ≡ false))
        → Ok [] front w'
    empty-Ok front w w' g s f = record {
      starts = subst (λ x. (elem start x ≡ true) ⊎ (elem start front ≡ true)) (sym s) g.starts;
      checked = λ k h. elim (g.checked k (ap (λ x. elem k x) (sym s) ∙ h)) [
        | inl i ↦ inr ((f k i).0)
        | inr i ↦ inr i
      ];
      opened = λ k h. elim (g.opened k (ap (λ x. elem k x) (sym s) ∙ h)) [
        | inl i ↦ inl i
        | inr (inl i) ↦ inr (inl i)
        | inr (inr (inl i)) ↦ cc
        | inr (inr (inr (inl (u, i)))) ↦ absurd (let e = (f k i).1 in cc)
        | inr (inr (inr (inr (kids, (e, i))))) ↦ inr (
            inr (
              inr (
                inr (
                  kids,
                  (
                    e,
                    λ c j. subst (λ x. (elem c x ≡ true) ⊎ (elem c front ≡ true)) (sym s) (i c j),
                  ),
                ))))
      ];
      todo_new = λ k h. cc;
    }

    abbrev Flushed : List ℕ → Walk → Option Walk → Type 0
    Flushed front w none = Unit
    Flushed front w (some w') =
        w'.shortfall ≡ 0 → (w.shortfall ≡ 0) × (Ok [] front w → Ok [] front w' × (w'.to_check ≡ []))

    flush-Flushed : (front : List ℕ) (w : Walk) → Flushed front w (flush salt v ask w)
    unfolding flush negotiate_complete
    flush-Flushed front w =
        let short = short_of salt v ask w.round w.to_check w.to_check in
        walk_if (Flushed front w) (length w.to_check == 0) _ _
          (λ e z. (z, λ g. (g, length-nil w.to_check e)))
          (λ _.
            walk_if (Flushed front w) (held_unread salt v ask w.unread short w.to_check) _ _
              (λ _. _)
              (λ u z.
                let none_left : length short ≡ 0 = omega (arith, z) in
                let n : (length short == 0) ≡ true = (==_iff (length short) 0).1 none_left in
                (
                  omega (arith, z),
                  λ g. (
                    empty-Ok front w _ g refl (λ k i. (
                      (w.round, (w.to_check, (i, none-short w.round w.to_check w.to_check n k i))),
                      none-unread w.unread short w.to_check n u k i,
                    )),
                    refl,
                  ),
                )))

    flush_full-Flushed :
        (front : List ℕ) (w w' : Walk)
        → flush_full salt v ask is_leaf fetch is_cached w ≡ some w'
        → w'.shortfall ≡ 0
        → (w.shortfall ≡ 0) × (Ok [] front w → Ok [] front w')
    unfolding flush_full
    flush_full-Flushed front w w' =
        walk_if
          (λ o.
            o ≡ some w' → w'.shortfall ≡ 0 → (w.shortfall ≡ 0) × (Ok [] front w → Ok [] front w'))
          (leb max_keys (length w.to_check)) _ _
          (λ _ e z.
            let (a, b) : (w.shortfall ≡ 0) × (Ok [] front w → Ok [] front w' × (w'.to_check ≡ [])) =
              subst (Flushed front w) e (flush-Flushed front w) z in
            (a, λ g. (b g).0))
          (λ _ e z.
            let q : w ≡ w' = some-injective _ _ e in
            (ap (λ x. x.shortfall) q ∙ z, λ g. subst (λ x. Ok [] front x) q g))

    abbrev Leveled : List ℕ → Walk → Level → Type 0
    Leveled front w (stops e) = Unit
    Leveled front w (goes w' out) =
        w'.shortfall ≡ 0 → (w.shortfall ≡ 0) × (Ok [] front w → Ok [] out w')

    goes_to-Leveled :
        (front out : List ℕ) (w w1 : Walk) (o : Option Walk)
        → flush_full salt v ask is_leaf fetch is_cached w1 ≡ o
        → w1.shortfall ≡ w.shortfall
        → (Ok [] front w → Ok [] out w1)
        → Leveled front w (goes_to salt v ask is_leaf fetch is_cached out o)
    unfolding goes_to
    goes_to-Leveled front out w w1 none e s f = _
    goes_to-Leveled front out w w1 (some w') e s f =
        λ z. let (a, b) = flush_full-Flushed out w1 w' e z in (sym s ∙ a, λ g. b (f g))

    expanded-Leveled :
        (front todo : List ℕ) (w w0 : Walk) (r : Option (Walk × List ℕ))
        → After salt v ask is_leaf fetch is_cached start todo w0 [] r
        → w0.shortfall ≡ w.shortfall
        → (Ok [] front w → Ok todo [] w0)
        → Leveled front w (expanded salt v ask is_leaf fetch is_cached r)
    unfolding expanded
    expanded-Leveled front todo w w0 none a s f = _
    expanded-Leveled front todo w w0 (some r) (b, h) s f =
        goes_to-Leveled front (r.1) w (r.0) _ refl (b ∙ s) (λ g. h (f g))

    one_level-Leveled :
        (front : List ℕ) (w : Walk)
        → Leveled front w (one_level salt v ask is_leaf fetch is_cached front w)
    unfolding one_level
    one_level-Leveled front w =
        let s = note_keys salt v ask is_leaf fetch is_cached front (w, []) in
        let (e, f) = note_keys-Good salt v ask is_leaf fetch is_cached start front (w, []) in
        expanded-Leveled front (s.1) w (s.0) _
          (expand-Good salt v ask is_leaf fetch is_cached start (s.1) (s.0) []) e f

    abbrev pub Leads : List ℕ → Walk → Walk → Type 0
    Leads front w w' = (w.shortfall ≡ 0) × (Ok [] front w → Ok [] [] w' × (w'.to_check ≡ []))

    ended-Ok :
        (w w' : Walk) (o : Option Walk)
        → Flushed [] w o
        → ended salt v ask is_leaf fetch is_cached o ≡ walked w'
        → w'.shortfall ≡ 0
        → Leads [] w w'
    unfolding ended
    ended-Ok w w' none f e z = cc
    ended-Ok w w' (some x) f e z =
        subst (λ y. y.shortfall ≡ 0 → Leads [] w y) (walk-same x w' e) f z

    next-Ok :
        (n : ℕ) (front : List ℕ) (w w' : Walk) (l : Level)
        → Leveled front w l
        → ((out : List ℕ) (x : Walk)
            → levels salt v ask is_leaf fetch is_cached n out x ≡ walked w'
            → Leads out x w')
        → go_on salt v ask is_leaf fetch is_cached
            (λ out x. levels salt v ask is_leaf fetch is_cached n out x)
            l
          ≡ walked w'
        → Leads front w w'
    unfolding go_on
    next-Ok n front w w' (stops x) f ih e = cc
    next-Ok n front w w' (goes x out) f ih e =
        let (a, b) = ih out x e in let (c, d) = f a in (c, λ g. b (d g))

    -- A walk that ends, and misses nothing.
    pub levels-Ok :
        (n : ℕ) (front : List ℕ) (w w' : Walk)
        → levels salt v ask is_leaf fetch is_cached n front w ≡ walked w'
        → w'.shortfall ≡ 0
        → Leads front w w'
    unfolding levels
    levels-Ok zero [] w w' e z = ended-Ok w w' (flush salt v ask w) (flush-Flushed [] w) e z
    levels-Ok (suc n) [] w w' e z = ended-Ok w w' (flush salt v ask w) (flush-Flushed [] w) e z
    levels-Ok zero (k ∷ ks) w w' e z = cc
    levels-Ok (suc n) (k ∷ ks) w w' e z =
        next-Ok n (k ∷ ks) w w' _ (one_level-Leveled (k ∷ ks) w)
          (λ out x h. levels-Ok n out x w' h z) e

    -- The keys of a tree have all been seen at the end of a walk that reads no other children than they have.
    pub Under-seen :
        (children : ℕ → List ℕ)
        → ((k : ℕ) (ks : List ℕ) → fetch k ≡ found ks → ks ≡ children k)
        → (w : Walk) → Ok [] [] w
        → w.to_check ≡ []
        → {k : ℕ} → Under is_leaf children is_cached start k
        → elem k w.seen ≡ true
    Under-seen children reads w g t top = elim g.starts [ inl h ↦ h | inr h ↦ cc ]
    Under-seen children reads w g t (down k c u l a h) =
        elim (g.opened k (Under-seen children reads w g t u)) [
          | inl i ↦ cc
          | inr (inl i) ↦ cc
          | inr (inr (inl i)) ↦ cc
          | inr (inr (inr (inl (u, i)))) ↦
              let e : elem k [] ≡ true = ap (λ x. elem k x) (sym t) ∙ i in cc
          | inr (inr (inr (inr (ks, (e, i))))) ↦
              elim (i c (ap (λ x. elem c x) (reads k ks e) ∙ h)) [ inl x ↦ x | inr x ↦ cc ]
        ]
