-- ===== src/Node/Gc/Dead.antt =====
-- What the sweep and the reconcile pass take for dead, and a re-sweep seen from a node.
use dstore.Prelude.{
  ℕ, ◌≡◌, refl, sym, ◌∙◌, ap, inl, inr, Bool, true, false, ◌||◌, not, Option, none, some, List,
  ◌==◌, ==_iff, if◌then◌else◌, elem, arith, Bool-cases,
}
use dstore.View.{View}
use dstore.View.Tables.{in_write_set}
use dstore.Catalog.GcState.{GcState, edited}
use dstore.Node.Gc.Register.{resweep}
use dstore.Node.Gc.Cycle.{epoch-resweep}
use dstore.Node.Gc.Sweep.{
  SweepInput, Local, live, live_in, dead_in, proved_dead, pack_of, poll_starts,
}

module _ (n : Local) (si : SweepInput) (cur : View) (k pack : ℕ) where
  dead_in-live_in :
      in_write_set n.salt si.placement k n.self ≡ true
      → si.overflow ≡ false
      → dead_in n si k pack (some pack) ≡ true
      → live_in n si cur k pack ≡ false
  unfolding dead_in live_in
  dead_in-live_in own whole d = rw (own, whole) (ground arith)

  same_pack : (p : ℕ) → dead_in n si k pack (some p) ≡ true → p ≡ pack
  unfolding dead_in
  same_pack p h = elim (Bool-cases (p == pack)) [
    | inl e ↦ (==_iff p pack).0 e
    | inr e ↦ ground arith
  ]

  guarded :
      (a b : Bool) (x : Bool)
      → (if a || not b then false else x) ≡ true
      → (a ≡ false) × (b ≡ true) × (x ≡ true)
  guarded true b x h = cc
  guarded false true x h = (refl, refl, h)
  guarded false false x h = cc

  by_pack :
      (found : Option ℕ)
      → in_write_set n.salt si.placement k n.self ≡ true
      → si.overflow ≡ false
      → dead_in n si k pack found ≡ true
      → (elim found [ none ↦ true | some p ↦ live_in n si cur k p ]) ≡ false
  unfolding dead_in
  by_pack none own whole d = sym d
  by_pack (some p) own whole d =
      let e = same_pack p d in
      ap (live_in n si cur k) e
      ∙ dead_in-live_in own whole (ap (λ q. dead_in n si k pack (some q)) (sym e) ∙ d)

  -- A record that the reconcile pass takes for proved dead is one that the sweep with the same mark drops,
  -- whatever the current view is.
  pub proved_dead-live : proved_dead n (some si) k pack ≡ true → live n si cur k ≡ false
  unfolding proved_dead live
  proved_dead-live h = elim (Bool-cases (n.is_corrupt k)) [
    | inl c ↦ rw c refl
    | inr c ↦
        let (whole, own, d) = guarded si.overflow (in_write_set n.salt si.placement k n.self) _ h in
        rw c (by_pack (pack_of k si.eligible) own whole d)
  ]

-- A re-sweep reopens the last completed epoch, so a node that has swept that epoch and remembers it starts
-- no sweep on any poll of it.
pub resweep-poll_starts :
    (g g' : GcState) (now garbage self : ℕ) (swept : List ℕ) (busy : Bool)
    → elem g.last_ok swept ≡ true
    → resweep now garbage g ≡ edited g'
    → poll_starts swept busy self g' ≡ false
unfolding poll_starts
resweep-poll_starts g g' now garbage self swept busy done h =
    let again : elem g'.epoch swept ≡ true =
      ap (λ e. elem e swept) (epoch-resweep g g' now garbage h) ∙ done in
    ground (arith, again)
