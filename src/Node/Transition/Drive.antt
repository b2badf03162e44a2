-- ===== src/Node/Transition/Drive.antt =====
-- node/maintenance.go: what the holder of the lease does for the running transition, and for the next
-- weight ramp, on a tick. Times are in nanoseconds.
use dstore.Prelude.{
  ℕ, ◌+◌, ◌-◌, ◌≤◌, ◌<◌, ◌≡◌, ◌⊎◌, inl, inr, ◌&&◌, not, none, some, List, [], ◌∷◌, ltb, leb,
  if◌then◌else◌, arith, Bool-cases,
}
use dstore.View.{View, Pending, Ramp, node, all_members}
use dstore.Node.Transition.{all_in}
use dstore.Node.Transition.Builds.{next_ramp_weight}

-- The calls of driveTransition.
pub data Drive : Type 0 where
  waits : Drive
  freezes_now : ℕ → Drive
  commits_now : ℕ → ℕ → Drive
  refreezes_now : Drive

unfoldable pub drive_transition : ℕ → ℕ → ℕ → View → Pending → Drive
drive_transition adopt_timeout participant_timeout now v p =
    if not p.frozen
    then (if not (all_in p.participants_ack (all_members v)) && ltb (now - p.since) adopt_timeout
        then waits
        else freezes_now p.id)
    else if all_in p.done p.participants
    then commits_now p.id p.round
    else if ltb participant_timeout (now - p.frozen_at)
    then refreezes_now
    else waits

-- What nextRamp does: it drops the ramp of a node, or proposes its next step.
pub data RampMove : Type 0 where
  no_ramp : RampMove
  ramp_done : ℕ → RampMove
  ramp_to : ℕ → ℕ → RampMove

unfoldable pub ramp_move : View → Ramp → RampMove
unfolding node next_ramp_weight
ramp_move v r = elim (node v r.node) [
  | none ↦ ramp_done r.node
  | some n ↦
      if leb r.target n.weight
      then ramp_done r.node
      else ramp_to r.node (next_ramp_weight n.weight r.target)
]

unfoldable pub next_ramp : View → List Ramp → RampMove
unfolding ramp_move
next_ramp v [] = no_ramp
next_ramp v (r ∷ rs) = ramp_move v r

-- Once both timeouts have passed since a transition was proposed and frozen, a tick of the holder freezes
-- it, commits it or freezes it anew.
pub drive_transition-moves :
    (adopt_timeout participant_timeout now : ℕ) (v : View) (p : Pending)
    → p.since + adopt_timeout ≤ now
    → p.frozen_at + participant_timeout < now
    → (drive_transition adopt_timeout participant_timeout now v p ≡ freezes_now p.id)
      ⊎ ((drive_transition adopt_timeout participant_timeout now v p ≡ commits_now p.id p.round)
          ⊎ (drive_transition adopt_timeout participant_timeout now v p ≡ refreezes_now))
unfolding drive_transition
drive_transition-moves adopt_timeout participant_timeout now v p h k = elim (Bool-cases p.frozen) [
  | inr f ↦ inl (ground arith)
  | inl t ↦ elim (Bool-cases (all_in p.done p.participants)) [
    | inl d ↦ inr (inl (ground arith))
    | inr d ↦ inr (inr (ground arith))
  ]
]
