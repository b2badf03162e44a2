-- ===== src/Node/RefPut/Results.antt =====
-- What the results of a level leave of the walk.
use mathlib.Core.Path.{subst}
use dstore.Prelude.{
  ℕ, ◌≡◌, refl, sym, ◌∙◌, ap, ◌⊎◌, inl, inr, Bool, true, Option, none, some, List, [], ◌∷◌, ◌++◌,
  elem, elem-head, elem-cons, cons-elem, elem-left, elem-right,
}
use dstore.View.{View}
use dstore.Node.RefPut.{Fetched, found, absent, malformed, Walk, expand}
use dstore.Node.RefPut.Checked.{Good, Opened-more}

pub fetch_cases :
    (f : Fetched) → ((kids : List ℕ) × (f ≡ found kids)) ⊎ ((f ≡ absent) ⊎ (f ≡ malformed))
fetch_cases (found kids) = inl (kids, refl)
fetch_cases absent = inr (inl refl)
fetch_cases malformed = inr (inr refl)

module _ (salt : ℕ → ℕ) (v : View) (ask : ℕ → ℕ → List ℕ → Option (List ℕ)) where
  module _ (is_leaf : ℕ → Bool) (fetch : ℕ → Fetched) (is_cached : ℕ → Bool) (start : ℕ) where
    abbrev pub Ok : List ℕ → List ℕ → Walk → Type 0
    Ok todo front w = Good salt v ask is_leaf fetch is_cached start todo front w

    found-Good :
        (k : ℕ) (ks out kids : List ℕ) (w : Walk)
        → fetch k ≡ found kids
        → Ok (k ∷ ks) out w
        → Ok ks (out ++ kids) w
    found-Good k ks out kids w e g =
        let ft : (c : ℕ)
            → (elem c w.seen ≡ true) ⊎ (elem c out ≡ true)
            → (elem c w.seen ≡ true) ⊎ (elem c (out ++ kids) ≡ true) =
          λ c i. elim i [ inl x ↦ inl x | inr x ↦ inr (elem-left c out kids x) ] in
        record {
          starts = ft start g.starts;
          checked = g.checked;
          opened = λ c h.
              Opened-more salt v ask is_leaf fetch is_cached start (k ∷ ks) ks out (out ++ kids) w w
                ft (λ _ i. i) (λ _ i. i) c
                (λ t. elim (cons-elem c k ks t) [
                  | inl q ↦ inr (
                      inr
                        (inr (inr (kids, (ap fetch q ∙ e, λ x i. inr (elem-right x out kids i))))))
                  | inr r ↦ inr (inr (inl r))
                ])
                (g.opened c h);
          todo_new = λ c h. g.todo_new c (elem-cons c k ks h);
        }

    absent-Good :
        (k : ℕ) (ks out : List ℕ) (w : Walk)
        → Ok (k ∷ ks) out w
        → Ok ks out (record w { unread = k ∷ w.unread })
    absent-Good k ks out w g =
        let w' : Walk = record w { unread = k ∷ w.unread } in
        record {
          starts = g.starts;
          checked = g.checked;
          opened = λ c h.
              Opened-more salt v ask is_leaf fetch is_cached start (k ∷ ks) ks out out w w'
                (λ _ i. i) (λ _ i. i) (λ x i. elem-cons x k w.unread i) c
                (λ t. elim (cons-elem c k ks t) [
                  | inl q ↦ inr (inr (inr (inl (elem-head c k w.unread q, g.todo_new c t))))
                  | inr r ↦ inr (inr (inl r))
                ])
                (g.opened c h);
          todo_new = λ c h. g.todo_new c (elem-cons c k ks h);
        }

    -- What the results leave of the walk.
    abbrev pub After : List ℕ → Walk → List ℕ → Option (Walk × List ℕ) → Type 0
    After ks w out none = Unit
    After ks w out (some r) = (r.0.shortfall ≡ w.shortfall) × (Ok ks out w → Ok [] (r.1) (r.0))

    After-more :
        (ks ks' : List ℕ) (w w' : Walk) (out out' : List ℕ) (r : Option (Walk × List ℕ))
        → w'.shortfall ≡ w.shortfall
        → (Ok ks out w → Ok ks' out' w')
        → After ks' w' out' r
        → After ks w out r
    After-more ks ks' w w' out out' none e f a = _
    After-more ks ks' w w' out out' (some r) e f (b, h) = (b ∙ e, λ g. h (f g))

    pub expand-Good :
        (ks : List ℕ) (w : Walk) (out : List ℕ)
        → After ks w out (expand salt v ask is_leaf fetch is_cached ks w out)
    unfolding expand
    expand-Good [] w out = (refl, λ g. g)
    expand-Good (k ∷ ks) w out =
        let P : Fetched → Type 0 = λ f.
          After (k ∷ ks) w out (elim f as (λ x. Option (Walk × List ℕ)) [
            | found kids ↦ expand salt v ask is_leaf fetch is_cached ks w (out ++ kids)
            | absent ↦
                expand salt v ask is_leaf fetch is_cached ks (record w { unread = k ∷ w.unread })
                  out
            | malformed ↦ none
          ]) in
        elim (fetch_cases (fetch k)) [
          | inl (kids, e) ↦ subst P (sym e) (
              After-more (k ∷ ks) ks w w out (out ++ kids) _ refl (found-Good k ks out kids w e)
                (expand-Good ks w (out ++ kids)))
          | inr (inl e) ↦ subst P (sym e) (
              After-more (k ∷ ks) ks w (record w { unread = k ∷ w.unread }) out out _ refl
                (absent-Good k ks out w) (expand-Good ks (record w { unread = k ∷ w.unread }) out))
          | inr (inr e) ↦ subst P (sym e) _
        ]
