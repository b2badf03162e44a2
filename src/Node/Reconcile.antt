-- ===== src/Node/Reconcile.antt =====
-- node/reconcile.go: which holder of a record offers it in a transition, and to which nodes
-- (rankAmong, reconcilePack). Times are in nanoseconds.
pub mod Offers
pub mod Ready
use dstore.Prelude.{
  ℕ, ◌+◌, ◌-◌, ◌*◌, ◌≡◌, refl, sym, ◌∙◌, ap, inl, inr, Bool, true, false, ◌&&◌, ◌||◌, not, Option,
  none, some, List, [], ◌∷◌, ◌++◌, leb, ◌==◌, ==_iff, if◌then◌else◌, length, elem, arith,
  Bool-cases,
}
use dstore.View.{View, Pending, contains}

-- rankAmong, over the owners of a key.
unfoldable pub rank_from : List ℕ → List ℕ → ℕ → List ℕ → ℕ × List ℕ
unfolding contains
rank_from above parts self [] = (0, above)
rank_from above parts self (o ∷ os) =
    let next = rank_from (if contains parts o then above ++ o ∷ [] else above) parts self os in
    if contains parts o && o == self then (length above + 1, above) else next

unfoldable pub rank_among : List ℕ → ℕ → List ℕ → ℕ × List ℕ
unfolding rank_from
rank_among owners self parts = rank_from [] parts self owners

unfoldable pub all_primary_done : List ℕ → List ℕ → Bool
unfolding contains
all_primary_done done [] = true
all_primary_done done (a ∷ more) = contains done a && all_primary_done done more

-- Whether a holder with its rank offers a key now.
unfoldable pub is_ready : ℕ → ℕ → Pending → ℕ × List ℕ → Bool
unfolding all_primary_done
is_ready delta now p r =
    r.0 == 0
    || r.0 == 1
    || leb ((r.0 - 1) * delta) (now - p.frozen_at)
    || all_primary_done p.primary_done (r.1)

-- The nodes that a key is offered to: outside a transition, and in one. `settled` is whether the pack was
-- settled for the current placement.
unfoldable pub others : ℕ → List ℕ → List ℕ
others self [] = []
others self (t ∷ ts) = let rest = others self ts in if t == self then rest else t ∷ rest

unfoldable pub pending_targets : ℕ → Bool → List ℕ → List ℕ → List ℕ
pending_targets self settled current [] = []
pending_targets self settled current (t ∷ ts) =
    let rest = pending_targets self settled current ts in
    if t == self || settled && elem t current then rest else t ∷ rest

unfoldable pub add_targets : ℕ → List ℕ → List ℕ → List ℕ
add_targets self targets [] = targets
add_targets self targets (t ∷ ts) =
    add_targets self
      (if not (t == self) && not (elem t targets) then targets ++ t ∷ [] else targets) ts

unfoldable pub transition_targets : ℕ → Bool → List ℕ → List ℕ → List ℕ
unfolding pending_targets add_targets
transition_targets self settled current pending =
    let targets = pending_targets self settled current pending in
    if settled then targets else add_targets self targets current
