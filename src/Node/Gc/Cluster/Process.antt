-- ===== src/Node/Gc/Cluster/Process.antt =====
-- Processing a key, as the other workers see it.
use mathlib.Core.Path.{subst}
use dstore.Prelude.{
  ℕ, ◌≡◌, ◌≢◌, refl, ◌∙◌, ap, ◌⊎◌, inl, inr, Bool, true, false, ◌&&◌, Option, none, some, List, [],
  ◌∷◌, ◌++◌, ◌==◌, ==_iff, if◌then◌else◌, elem, Bool-cases, elem-first, elem-cons, cons-elem,
  elem-right, or-right, and-both, elem-left,
}
use dstore.Node.Gc.Mark.{
  MarkState, OutBatch, batch_of, batch_or_new, put_batch, was_forwarded, forward_to, expand_key,
  visit,
}
use dstore.Node.Gc.Cluster.Grows.{
  waiting, Grows, Grows-same, Grows-then, Grows-put, put-waiting, elem-last,
}
use dstore.Node.Gc.Cluster.Delivered.{Leaves}

-- The children of a visited key are queued, or something is missing.
abbrev pub Expanded : Option (List ℕ) → MarkState → Type 0
Expanded none ms = ms.missing ≢ []
Expanded (some kids) ms = (c : ℕ) → elem c kids ≡ true → elem c ms.queue ≡ true

-- What the expansion or the forwarding of key `k` adds.
pub record Adds (k : ℕ) (found : Option (List ℕ)) (ms ms' : MarkState) : Type 0 where
  pub grows : Grows ms ms'
  pub new_forward :
      (v a : ℕ)
      → was_forwarded v a ms'.forward ≡ true
      → (was_forwarded v a ms.forward ≡ true) ⊎ (elem a ((waiting v ms').expand) ≡ true)
  pub new_visited :
      (a : ℕ)
      → elem a ms'.visited ≡ true
      → (elem a ms.visited ≡ true) ⊎ ((a ≡ k) × Expanded found ms')

pub Adds-same : (k : ℕ) (found : Option (List ℕ)) (ms : MarkState) → Adds k found ms ms
Adds-same k found ms = record {
  grows = Grows-same ms;
  new_forward = λ v a h. inl h;
  new_visited = λ a h. inl h;
}

-- Delivering comes first, and adds to neither list.
pub Adds-after :
    {k : ℕ} {found : Option (List ℕ)} {a b c : MarkState}
    → Grows a b
    → Leaves a b
    → Adds k found b c
    → Adds k found a c
Adds-after {k} {found} {a} {b} {c} g l d = record {
  grows = Grows-then g d.grows;
  new_forward = λ v x h.
      subst (λ f. (was_forwarded v x f ≡ true) ⊎ (elem x ((waiting v c).expand) ≡ true)) l.forward
        (d.new_forward v x h);
  new_visited = λ x h.
      subst (λ f. (elem x f ≡ true) ⊎ ((x ≡ k) × Expanded found c)) l.visited (d.new_visited x h);
}

pub last-some : (k : ℕ) (xs : List ℕ) → xs ++ k ∷ [] ≢ []
last-some k [] = λ h. cc
last-some k (x ∷ xs) = λ h. cc

pub if_case :
    (P : MarkState → Type 0) (b : Bool) (x y : MarkState)
    → (b ≡ true → P x)
    → (b ≡ false → P y)
    → P (if b then x else y)
if_case P true x y f g = f refl
if_case P false x y f g = g refl

module _ (salt : ℕ → ℕ) (is_leaf : ℕ → Bool) (self : ℕ) where
  module _ (k : ℕ) (ms : MarkState) where
    pub forward_to-Adds :
        (found : Option (List ℕ)) (w : ℕ)
        → Adds k found ms (forward_to salt is_leaf self w k ms)
          × ((elem k ((waiting w (forward_to salt is_leaf self w k ms)).expand) ≡ true)
              ⊎ (was_forwarded w k ms.forward ≡ true))
    unfolding forward_to
    forward_to-Adds found w =
        let b : OutBatch = waiting w ms in
        let b' : OutBatch = record b { expand = b.expand ++ k ∷ [] } in
        let there : elem k ((batch_or_new (batch_of w (put_batch w b' ms.out))).expand) ≡ true =
          ap (λ (c : OutBatch). elem k c.expand) (put-waiting w b' ms.out) ∙ elem-last k b.expand in
        if_case
          (λ m.
            Adds k found ms m
            × ((elem k ((waiting w m).expand) ≡ true) ⊎ (was_forwarded w k ms.forward ≡ true)))
          (was_forwarded w k ms.forward) ms _ (λ t. (Adds-same k found ms, inr t))
          (λ f. (
            record {
              grows =
                  Grows-then
                    (record {
                      placement = refl;
                      busy = refl;
                      acked = refl;
                      eligible = refl;
                      queue = λ a h. h;
                      keys = λ o a h. h;
                      expand = λ o a h. h;
                      marked = λ a h. h;
                      visited = λ a h. h;
                      missing = λ h. h;
                    })
                    (Grows-put (record ms { forward = (w, k) ∷ ms.forward }) w b' (λ a h. h)
                      (λ a h. elem-left a b.expand (k ∷ []) h));
              new_forward = λ v a h. elim (Bool-cases (w == v && k == a)) [
                | inl t ↦
                    let (wv, ka) = and-both (w == v) (k == a) t in
                    inr (
                      subst
                        (λ x.
                          elem x ((batch_or_new (batch_of v (put_batch w b' ms.out))).expand)
                          ≡ true)
                        ((==_iff k a).0 ka)
                        (subst
                          (λ x.
                            elem k ((batch_or_new (batch_of x (put_batch w b' ms.out))).expand)
                            ≡ true)
                          ((==_iff w v).0 wv) there))
                | inr e ↦ inl (or-right (w == v && k == a) (was_forwarded v a ms.forward) h e)
              ];
              new_visited = λ a h. inl h;
            },
            inl there,
          ))

    pub visit-Adds :
        (found : Option (List ℕ))
        → Adds k found ms (visit salt is_leaf self found k ms)
          × (elem k (visit salt is_leaf self found k ms).visited ≡ true)
    unfolding visit expand_key
    visit-Adds none =
        if_case (λ m. Adds k none ms m × (elem k m.visited ≡ true)) (elem k ms.visited) ms _
          (λ t. (Adds-same k none ms, t))
          (λ f. (
            record {
              grows = record {
                placement = refl;
                busy = refl;
                acked = refl;
                eligible = refl;
                queue = λ a h. h;
                keys = λ o a h. h;
                expand = λ o a h. h;
                marked = λ a h. h;
                visited = λ a h. elem-cons a k ms.visited h;
                missing = λ h. absurd (last-some k ms.missing h);
              };
              new_forward = λ v a h. inl h;
              new_visited = λ a h. elim (cons-elem a k ms.visited h) [
                | inl e ↦ inr (e, λ z. last-some k ms.missing z)
                | inr e ↦ inl e
              ];
            },
            elem-first k ms.visited,
          ))
    visit-Adds (some kids) =
        if_case (λ m. Adds k (some kids) ms m × (elem k m.visited ≡ true)) (elem k ms.visited) ms _
          (λ t. (Adds-same k (some kids) ms, t))
          (λ f. (
            record {
              grows = record {
                placement = refl;
                busy = refl;
                acked = refl;
                eligible = refl;
                queue = λ a h. elem-left a ms.queue kids h;
                keys = λ o a h. h;
                expand = λ o a h. h;
                marked = λ a h. h;
                visited = λ a h. elem-cons a k ms.visited h;
                missing = λ h. h;
              };
              new_forward = λ v a h. inl h;
              new_visited = λ a h. elim (cons-elem a k ms.visited h) [
                | inl e ↦ inr (e, λ c i. elem-right c ms.queue kids i)
                | inr e ↦ inl e
              ];
            },
            elem-first k ms.visited,
          ))
