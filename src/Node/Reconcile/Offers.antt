-- ===== src/Node/Reconcile/Offers.antt =====
-- Who offers a key in a transition, and to whom.
use dstore.Prelude.{
  ℕ, ◌≡◌, refl, ◌∙◌, ap, inl, inr, Bool, true, false, ◌&&◌, ◌||◌, not, List, [], ◌∷◌, ◌++◌, ◌==◌,
  ==_iff, if◌then◌else◌, elem, arith, Bool-cases, elem-append,
}
use dstore.Node.Reconcile.{pending_targets, add_targets, transition_targets}

elem-dropped :
    (t a : ℕ) (b c : Bool) (ts rest : List ℕ)
    → (t ≡ a → b ≡ c)
    → elem a rest ≡ (elem a ts && not c)
    → elem a (if b then rest else t ∷ rest) ≡ ((t == a || elem a ts) && not c)
elem-dropped t a b c ts rest same r = elim (Bool-cases (t == a)) [
  | inl e ↦ let k = same ((==_iff t a).0 e) in ground (arith, k, r)
  | inr e ↦ ground (arith, r)
]

pending_targets-elem :
    (self : ℕ) (settled : Bool) (current ts : List ℕ) (a : ℕ)
    → elem a (pending_targets self settled current ts)
      ≡ (elem a ts && not (a == self || settled && elem a current))
unfolding pending_targets
pending_targets-elem self settled current [] a = refl
pending_targets-elem self settled current (t ∷ ts) a =
    elem-dropped t a (t == self || settled && elem t current)
      (a == self || settled && elem a current) ts _
      (λ e. ap (λ x. x == self || settled && elem x current) e)
      (pending_targets-elem self settled current ts a)

elem-added :
    (self t a : ℕ) (targets ts : List ℕ)
    → (elem a (if not (t == self) && not (elem t targets) then targets ++ t ∷ [] else targets)
        || elem a ts && not (a == self))
      ≡ (elem a targets || (t == a || elem a ts) && not (a == self))
elem-added self t a targets ts = elim (Bool-cases (not (t == self) && not (elem t targets))) [
  | inl b ↦
      rw (b, elem-append a targets (t ∷ []))
        (elim (Bool-cases (t == a)) [
          | inr e ↦ ground arith
          | inl e ↦
              let self_same : (t == self) ≡ (a == self) = ap (λ x. x == self) ((==_iff t a).0 e) in
              ground (arith, self_same)
        ])
  | inr b ↦ rw b (elim (Bool-cases (t == a)) [
    | inr e ↦ ground arith
    | inl e ↦
        let self_same : (t == self) ≡ (a == self) = ap (λ x. x == self) ((==_iff t a).0 e) in
        let there : elem t targets ≡ elem a targets = ap (λ x. elem x targets) ((==_iff t a).0 e) in
        ground (arith, self_same, there)
  ])
]

add_targets-elem :
    (self : ℕ) (targets ts : List ℕ) (a : ℕ)
    → elem a (add_targets self targets ts) ≡ (elem a targets || elem a ts && not (a == self))
unfolding add_targets
add_targets-elem self targets [] a = ground arith
add_targets-elem self targets (t ∷ ts) a =
    add_targets-elem self
      (if not (t == self) && not (elem t targets) then targets ++ t ∷ [] else targets) ts a
    ∙ elem-added self t a targets ts

-- In a transition a key is offered to exactly the nodes other than this one that own it under the pending
-- nodes or, where the pack was not settled for the current placement, under the current ones; where it was,
-- not to those that own it now.
pub transition_targets-elem :
    (self : ℕ) (settled : Bool) (current pending : List ℕ) (a : ℕ)
    → elem a (transition_targets self settled current pending) ≡ (
        not (a == self)
        && (if settled
            then elem a pending && not (elem a current)
            else elem a pending || elem a current))
unfolding transition_targets
transition_targets-elem self true current pending a =
    pending_targets-elem self true current pending a ∙ ground arith
transition_targets-elem self false current pending a =
    add_targets-elem self (pending_targets self false current pending) current a
    ∙ ap (λ b. b || elem a current && not (a == self))
        (pending_targets-elem self false current pending a)
    ∙ ground arith
