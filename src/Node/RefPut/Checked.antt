-- ===== src/Node/RefPut/Checked.antt =====
-- What a walk that ends without a shortfall has checked.
use mathlib.Core.Path.{subst}
use dstore.Prelude.{
  ℕ, ◌≡◌, refl, sym, ◌∙◌, ◌⊎◌, inl, inr, Bool, true, false, ◌||◌, Option, List, [], ◌∷◌, ◌++◌,
  if◌then◌else◌, elem, elem-head, elem-cons, cons-elem, one-elem, append-elem, elem-left,
  elem-right,
}
use dstore.View.{View}
use dstore.Node.RefPut.{Fetched, found, Walk, is_short, note_key, note_keys}

-- The keys of a tree that a walk from `start` has to do with: down to leaves and to cached keys. `children`
-- are those that an object has, whether or not it can be read.
module _ (is_leaf : ℕ → Bool) (children : ℕ → List ℕ) (is_cached : ℕ → Bool) (start : ℕ) where
  pub data Under : ℕ → Type 0 where
    top : Under start
    down :
        (k c : ℕ)
        → Under k
        → is_leaf k ≡ false
        → is_cached k ≡ false
        → elem c (children k) ≡ true
        → Under c

module _ (salt : ℕ → ℕ) (v : View) (ask : ℕ → ℕ → List ℕ → Option (List ℕ)) where
  -- The negotiation of some batch has found enough owners that hold the key.
  abbrev pub IsHeld : ℕ → Type 0
  IsHeld k =
      (round : ℕ) × ((keys : List ℕ) × ((elem k keys ≡ true)
          × (is_short salt v ask round keys k ≡ false)))

  module _ (is_leaf : ℕ → Bool) (fetch : ℕ → Fetched) (is_cached : ℕ → Bool) (start : ℕ) where
    -- What has become of a key that has been seen.
    abbrev pub Opened : List ℕ → List ℕ → Walk → ℕ → Type 0
    Opened todo front w k =
        (is_leaf k ≡ true)
        ⊎ ((is_cached k ≡ true)
            ⊎ ((elem k todo ≡ true)
                ⊎ (((elem k w.unread ≡ true) × (elem k w.to_check ≡ true))
                    ⊎ ((kids : List ℕ) × ((fetch k ≡ found kids)
                          × ((c : ℕ)
                              → elem c kids ≡ true
                              → (elem c w.seen ≡ true) ⊎ (elem c front ≡ true)))))))

    pub record Good (todo front : List ℕ) (w : Walk) : Type 0 where
      pub starts : (elem start w.seen ≡ true) ⊎ (elem start front ≡ true)
      pub checked : (k : ℕ) → elem k w.seen ≡ true → (elem k w.to_check ≡ true) ⊎ IsHeld k
      pub opened : (k : ℕ) → elem k w.seen ≡ true → Opened todo front w k
      pub todo_new : (k : ℕ) → elem k todo ≡ true → elem k w.to_check ≡ true

    -- A walk that has seen more, or has it still before it.
    module _ (todo todo' front front' : List ℕ) (w w' : Walk)
        (ft : (c : ℕ)
          → (elem c w.seen ≡ true) ⊎ (elem c front ≡ true)
          → (elem c w'.seen ≡ true) ⊎ (elem c front' ≡ true))
        (tc : (c : ℕ) → elem c w.to_check ≡ true → elem c w'.to_check ≡ true)
        (ur : (c : ℕ) → elem c w.unread ≡ true → elem c w'.unread ≡ true) where
      pub Opened-more :
          (k : ℕ)
          → (elem k todo ≡ true → Opened todo' front' w' k)
          → Opened todo front w k
          → Opened todo' front' w' k
      Opened-more k t (inl h) = inl h
      Opened-more k t (inr (inl h)) = inr (inl h)
      Opened-more k t (inr (inr (inl h))) = t h
      Opened-more k t (inr (inr (inr (inl (u, h))))) = inr (inr (inr (inl (ur k u, tc k h))))
      Opened-more k t (inr (inr (inr (inr (kids, (f, h)))))) =
          inr (inr (inr (inr (kids, (f, λ c i. ft c (h c i))))))

    pair_if :
        (P : Walk × List ℕ → Type 0) (b : Bool) (x y : Walk × List ℕ)
        → (b ≡ true → P x)
        → (b ≡ false → P y)
        → P (if b then x else y)
    pair_if P true x y f g = f refl
    pair_if P false x y f g = g refl

    list_if :
        (P : List ℕ → Type 0) (b : Bool) (x y : List ℕ)
        → (b ≡ true → P x)
        → (b ≡ false → P y)
        → P (if b then x else y)
    list_if P true x y f g = f refl
    list_if P false x y f g = g refl

    or-either : (a b : Bool) → (a || b) ≡ true → (a ≡ true) ⊎ (b ≡ true)
    or-either true b h = inl refl
    or-either false b h = inr h

    module _ (k : ℕ) (front : List ℕ) (s : Walk × List ℕ) (g : Good (s.1) (k ∷ front) (s.0)) where
      -- A key seen before.
      old-Good : elem k s.0.seen ≡ true → Good (s.1) front (s.0)
      old-Good h =
          let ft : (c : ℕ)
              → (elem c s.0.seen ≡ true) ⊎ (elem c (k ∷ front) ≡ true)
              → (elem c s.0.seen ≡ true) ⊎ (elem c front ≡ true) =
            λ c e. elim e [
              | inl i ↦ inl i
              | inr i ↦ elim (cons-elem c k front i) [
                | inl q ↦ inl (subst (λ x. elem x s.0.seen ≡ true) (sym q) h)
                | inr r ↦ inr r
              ]
            ] in
          record {
            starts = ft start g.starts;
            checked = g.checked;
            opened = λ c e.
                Opened-more (s.1) (s.1) (k ∷ front) front (s.0) (s.0) ft (λ _ i. i) (λ _ i. i) c
                  (λ t. inr (inr (inl t))) (g.opened c e);
            todo_new = g.todo_new;
          }

      abbrev noted : Walk
      noted = record (s.0) { seen = k ∷ s.0.seen; to_check = s.0.to_check ++ k ∷ [] }

      new-Good :
          (todo : List ℕ)
          → ((c : ℕ) → elem c (s.1) ≡ true → elem c todo ≡ true)
          → ((c : ℕ) → elem c todo ≡ true → (c ≡ k) ⊎ (elem c (s.1) ≡ true))
          → Opened todo front noted k
          → Good todo front noted
      new-Good todo more only new =
          let ft : (c : ℕ)
              → (elem c s.0.seen ≡ true) ⊎ (elem c (k ∷ front) ≡ true)
              → (elem c noted.seen ≡ true) ⊎ (elem c front ≡ true) =
            λ c e. elim e [
              | inl i ↦ inl (elem-cons c k s.0.seen i)
              | inr i ↦ elim (cons-elem c k front i) [
                | inl q ↦ inl (elem-head c k s.0.seen q)
                | inr r ↦ inr r
              ]
            ] in
          let tc : (c : ℕ) → elem c s.0.to_check ≡ true → elem c noted.to_check ≡ true =
            λ c h. elem-left c s.0.to_check (k ∷ []) h in
          let here : (c : ℕ) → c ≡ k → elem c noted.to_check ≡ true =
            λ c q. elem-right c s.0.to_check (k ∷ []) (elem-head c k [] q) in
          record {
            starts = ft start g.starts;
            checked = λ c h. elim (cons-elem c k s.0.seen h) [
              | inl q ↦ inl (here c q)
              | inr r ↦ elim (g.checked c r) [ inl i ↦ inl (tc c i) | inr i ↦ inr i ]
            ];
            opened = λ c h. elim (cons-elem c k s.0.seen h) [
              | inl q ↦ subst (λ x. Opened todo front noted x) (sym q) new
              | inr r ↦
                  Opened-more (s.1) todo (k ∷ front) front (s.0) noted ft tc (λ _ i. i) c
                    (λ t. inr (inr (inl (more c t)))) (g.opened c r)
            ];
            todo_new = λ c h. elim (only c h) [ inl q ↦ here c q | inr i ↦ tc c (g.todo_new c i) ];
          }

      note-Good :
          Good
            ((note_key salt v ask is_leaf fetch is_cached k s).1)
            front
            ((note_key salt v ask is_leaf fetch is_cached k s).0)
      unfolding note_key
      note-Good =
          pair_if (λ r. Good (r.1) front (r.0)) (elem k s.0.seen) s _ old-Good
            (λ _.
              list_if (λ t. Good t front noted) (is_leaf k || is_cached k) (s.1) (s.1 ++ k ∷ [])
                (λ e.
                  new-Good (s.1) (λ c i. i) (λ c i. inr i)
                    (elim (or-either (is_leaf k) (is_cached k) e) [
                      | inl l ↦ inl l
                      | inr l ↦ inr (inl l)
                    ]))
                (λ e.
                  new-Good (s.1 ++ k ∷ []) (λ c i. elem-left c (s.1) (k ∷ []) i)
                    (λ c i. elim (append-elem c (s.1) (k ∷ []) i) [
                      | inl l ↦ inr l
                      | inr r ↦ inl (one-elem c k r)
                    ])
                    (inr (inr (inl (elem-right k (s.1) (k ∷ []) (elem-head k k [] refl)))))))

    note_key-shortfall :
        (k : ℕ) (s : Walk × List ℕ)
        → (note_key salt v ask is_leaf fetch is_cached k s).0.shortfall ≡ s.0.shortfall
    unfolding note_key
    note_key-shortfall k s =
        pair_if (λ r. r.0.shortfall ≡ s.0.shortfall) (elem k s.0.seen) s _ (λ _. refl) (λ _. refl)

    pub note_keys-Good :
        (ks : List ℕ) (s : Walk × List ℕ)
        → ((note_keys salt v ask is_leaf fetch is_cached ks s).0.shortfall ≡ s.0.shortfall)
          × (Good (s.1) ks (s.0)
              → Good
                  ((note_keys salt v ask is_leaf fetch is_cached ks s).1)
                  []
                  ((note_keys salt v ask is_leaf fetch is_cached ks s).0))
    unfolding note_keys
    note_keys-Good [] s = (refl, λ g. g)
    note_keys-Good (k ∷ ks) s =
        let s' = note_key salt v ask is_leaf fetch is_cached k s in
        let (e, f) = note_keys-Good ks s' in
        (e ∙ note_key-shortfall k s, λ g. f (note-Good k ks s g))
