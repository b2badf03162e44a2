-- ===== src/Node/Transition/Evolves.antt =====
-- Each edit moves the running transition on, starts one with a new id, or ends it.
use mathlib.Core.Option.{some-injective}
use mathlib.Core.Path.{subst}
use native.Mathlib.Nat.{mod-eq_of_lt}
use dstore.Prelude.{
  ℕ, ◌+◌, ◌%◌, ◌^◌, ◌≤◌, ◌<◌, ◌≡◌, ◌⊎◌, inl, inr, refl, sym, ◌∙◌, ap, Bool, true, false, Option,
  none, some, List, if◌then◌else◌, arith, Bool-cases, some-ne-none,
}
use dstore.Bytes.{Bytes}
use dstore.View.{View, Pending}
use dstore.Catalog.Views.{Edit, edited, refused, stamped}
use dstore.Node.Transition.{
  EditError, Build, new_pending, on_pending, propose_edit, freeze_pending, freeze_edit,
  refreeze_pending, refreeze_edit, commit_pending, commit_edit, ack_pending, ack_edit, cas_pending,
  add_primary, add_done, abort, no_frozen, when_idle, propose_built, drops_too_many, voter_change,
  in_progress,
}
use dstore.Node.Transition.Run.{
  Cas, Aside, Tame, Step, proposes, freezes, refreezes, commits, acks, reports_primary,
  reports_done, aborts, updates_self, does_aside,
}
use dstore.Node.Transition.Entry.{abort_transition, update_self, update_pending}

-- What every step does to the transition that runs.
pub record Evolves (v v' : View) : Type 0 where
  pub epoch_up : v.epoch ≤ v'.epoch
  pub same_or_new :
      (p' : Pending)
      → v'.pending ≡ some p'
      → ((v.epoch < p'.id) × (p'.id ≤ v'.epoch))
        ⊎ ((p : Pending) × (v.pending ≡ some p)
            × (p'.id ≡ p.id)
            × (p.frozen ≡ true → p'.frozen ≡ true))

pub on_pending-edited :
    (o : Option Pending) (e : EditError) (f : Pending → Edit EditError) (after : View) (bump : Bool)
    → on_pending o e f ≡ edited after bump
    → (p : Pending) × (o ≡ some p) × (f p ≡ edited after bump)
on_pending-edited none e f after bump h = cc
on_pending-edited (some p) e f after bump h = (p, refl, h)

pub guard-edited :
    (c : Bool) (e : EditError) (x : Edit EditError) (after : View) (bump : Bool)
    → (if c then refused e else x) ≡ edited after bump
    → (c ≡ false) × (x ≡ edited after bump)
guard-edited true e x after bump h = cc
guard-edited false e x after bump h = (refl, h)

abbrev view_of : Edit EditError → View → View
view_of (edited v b) w = v
view_of (refused e) w = w

abbrev bump_of : Edit EditError → Bool
bump_of (edited v b) = b
bump_of (refused e) = false

pub edited-injective :
    {a a' : View} {b b' : Bool}
    → ◌≡◌ {A = Edit EditError} (edited a b) (edited a' b')
    → (a ≡ a') × (b ≡ b')
edited-injective {a} h = (ap (λ e. view_of e a) h, ap bump_of h)

module _ {e : View → Edit EditError} {v v' : View} (c : Cas e v v') where
  stamped_epoch : c.after.epoch ≡ v.epoch → v.epoch ≤ v'.epoch
  unfolding stamped
  stamped_epoch h =
      subst (λ (x : View). v.epoch ≤ x.epoch) (sym c.committed)
        (elim (Bool-cases c.bump) [
          | inl t ↦ rw (t, mod-eq_of_lt c.in_range) (omega arith)
          | inr f ↦ rw (f, h) (omega arith)
        ])

  stamped_pending : v'.pending ≡ c.after.pending
  unfolding stamped
  stamped_pending = ap (λ (x : View). x.pending) c.committed

  pub stamped_nodes : v'.nodes ≡ c.after.nodes
  unfolding stamped
  stamped_nodes = ap (λ (x : View). x.nodes) c.committed

  stamped_bumped : c.bump ≡ true → v'.epoch ≡ v.epoch + 1
  unfolding stamped
  stamped_bumped t = ap (λ (x : View). x.epoch) c.committed ∙ rw (t, mod-eq_of_lt c.in_range) refl

  -- An edit that puts `p'` in the place of the transition that runs.
  Evolves-same :
      (p p' : Pending)
      → v.pending ≡ some p
      → c.after.pending ≡ some p'
      → c.after.epoch ≡ v.epoch
      → p'.id ≡ p.id
      → (p.frozen ≡ true → p'.frozen ≡ true)
      → Evolves v v'
  Evolves-same p p' old new same id keep = record {
    epoch_up = stamped_epoch same;
    same_or_new = λ q h.
        let e : p' ≡ q = some-injective p' q (sym new ∙ sym stamped_pending ∙ h) in
        inr (
          p,
          old,
          ap (λ (x : Pending). x.id) (sym e) ∙ id,
          λ t. subst (λ (x : Pending). x.frozen ≡ true) e (keep t),
        );
  }

  Evolves-set :
      (p p' : Pending)
      → v.pending ≡ some p
      → record v { pending = some p' } ≡ c.after
      → p'.id ≡ p.id
      → (p.frozen ≡ true → p'.frozen ≡ true)
      → Evolves v v'
  Evolves-set p p' old e id keep =
      Evolves-same p p' old (sym (ap (λ (x : View). x.pending) e))
        (sym (ap (λ (x : View). x.epoch) e)) id keep

freeze-Evolves : {v v' : View} (now id : ℕ) → Cas (freeze_edit now id) v v' → Evolves v v'
unfolding freeze_edit freeze_pending
freeze-Evolves {v} now id c =
    let (p, o, h) = on_pending-edited v.pending abort _ c.after c.bump c.by_edit in
    let (_, g) = guard-edited _ abort _ c.after c.bump h in
    Evolves-set c p _ o (edited-injective g).0 refl (λ t. refl)

refreeze-Evolves :
    {v v' : View} (now : ℕ) (force : Bool) → Cas (refreeze_edit now force) v v' → Evolves v v'
unfolding refreeze_edit refreeze_pending
refreeze-Evolves {v} now force c =
    let (p, o, h) = on_pending-edited v.pending no_frozen _ c.after c.bump c.by_edit in
    let (_, g) = guard-edited _ no_frozen _ c.after c.bump h in
    let (_, k) = guard-edited _ abort _ c.after c.bump g in
    Evolves-set c p _ o (edited-injective k).0 refl (λ t. t)

ack-Evolves : {v v' : View} (id self : ℕ) → Cas (ack_edit id self) v v' → Evolves v v'
unfolding ack_edit ack_pending
ack-Evolves {v} id self c =
    let (p, o, h) = on_pending-edited v.pending abort _ c.after c.bump c.by_edit in
    let (_, g) = guard-edited _ abort _ c.after c.bump h in
    Evolves-set c p _ o (edited-injective g).0 refl (λ t. t)

cas_pending-Evolves :
    {v v' : View} (id : ℕ) (fn : Pending → Pending)
    → ((p : Pending) → ((fn p).id ≡ p.id) × ((fn p).frozen ≡ p.frozen))
    → Cas (cas_pending id fn) v v'
    → Evolves v v'
unfolding cas_pending
cas_pending-Evolves {v} id fn keeps c =
    let (p, o, h) = on_pending-edited v.pending abort _ c.after c.bump c.by_edit in
    let (_, g) = guard-edited _ abort _ c.after c.bump h in
    Evolves-set c p (fn p) o (edited-injective g).0 (keeps p).0 (λ t. (keeps p).1 ∙ t)

commit-Evolves :
    {v v' : View} (now id round : ℕ) → Cas (commit_edit now id round) v v' → Evolves v v'
unfolding commit_edit commit_pending
commit-Evolves {v} now id round c =
    let (p, o, h) = on_pending-edited v.pending abort _ c.after c.bump c.by_edit in
    let (_, g) = guard-edited _ abort _ c.after c.bump h in
    let (_, k) = guard-edited _ abort _ c.after c.bump g in
    let (a, b) = edited-injective k in
    record {
      epoch_up = omega (arith, stamped_bumped c (sym b));
      same_or_new =
          λ q e. some-ne-none (sym e ∙ stamped_pending c ∙ sym (ap (λ (x : View). x.pending) a));
    }

when_idle-edited :
    (o : Option Pending) (e : EditError) (x : Edit EditError) (after : View) (bump : Bool)
    → when_idle o e x ≡ edited after bump
    → x ≡ edited after bump
when_idle-edited none e x after bump h = h
when_idle-edited (some p) e x after bump h = cc

-- What a proposal leaves, for the view and the target that `build` made.
pub propose_built-edited :
    (built : Option (View × Pending)) (after : View) (bump : Bool)
    → propose_built built ≡ edited after bump
    → (v' : View) × (p : Pending) × (built ≡ some (v', p))
      × (bump ≡ true)
      × (record v' { pending = some (record p { id = (v'.epoch + 1) % 2 ^ 64 }) } ≡ after)
unfolding propose_built
propose_built-edited none after bump h = cc
propose_built-edited (some (v', p)) after bump h =
    let (_, g) = guard-edited _ drops_too_many _ after bump h in
    let (a, b) = edited-injective g in (v', p, refl, sym b, a)

pub propose-built :
    {v v' : View} (now : ℕ) (reason : Bytes) (build : Build)
    (c : Cas (propose_edit now reason build) v v')
    → propose_built (build v (new_pending now reason v)) ≡ edited c.after c.bump
unfolding propose_edit
propose-built {v} now reason build c =
    (guard-edited _ voter_change _ c.after c.bump
      (when_idle-edited v.pending in_progress _ c.after c.bump c.by_edit)).1

propose-Evolves :
    {v v' : View} (now : ℕ) (reason : Bytes) (build : Build)
    → Tame build
    → Cas (propose_edit now reason build) v v'
    → Evolves v v'
propose-Evolves {v} {v'} now reason build t c =
    let (w, p, e, b, a) =
      propose_built-edited _ c.after c.bump (propose-built now reason build c) in
    let same : w.epoch ≡ v.epoch = (t.tame v w (new_pending now reason v) p e).1 in
    let up : v'.epoch ≡ v.epoch + 1 = stamped_bumped c b in
    let small : w.epoch + 1 < 2 ^ 64 = omega (arith, c.in_range) in
    record {
      epoch_up = omega (arith, up);
      same_or_new = λ q h.
          let id : (w.epoch + 1) % 2 ^ 64 ≡ q.id =
            ap (λ (x : Pending). x.id)
              (some-injective _ q (ap (λ (x : View). x.pending) a ∙ sym (stamped_pending c) ∙ h)) in
          inl (
            omega (arith, id, up, same, mod-eq_of_lt small),
            omega (arith, id, up, same, mod-eq_of_lt small),
          );
    }

abort-Evolves : {v v' : View} → Cas abort_transition v v' → Evolves v v'
unfolding abort_transition
abort-Evolves {v} c =
    let (p, o, h) = on_pending-edited v.pending abort _ c.after c.bump c.by_edit in
    let (a, b) = edited-injective h in
    record {
      epoch_up = omega (arith, stamped_bumped c (sym b));
      same_or_new =
          λ q e. some-ne-none (sym e ∙ stamped_pending c ∙ sym (ap (λ (x : View). x.pending) a));
    }

-- The transition that runs is the same with other entries of nodes.
update_pending-same :
    (self : ℕ) (addrs : List Bytes) (writable : Bool) (o : Option Pending) (q : Pending)
    → update_pending self addrs writable o ≡ some q
    → (p : Pending) × (o ≡ some p) × (q.id ≡ p.id) × (p.frozen ≡ true → q.frozen ≡ true)
update_pending-same self addrs writable none q h = some-ne-none (sym h)
update_pending-same self addrs writable (some p) q h =
    let e = some-injective _ q h in
    (p, refl, sym (ap (λ (x : Pending). x.id) e), λ t. sym (ap (λ (x : Pending). x.frozen) e) ∙ t)

update_self-Evolves :
    {v v' : View} (self : ℕ) (addrs : List Bytes) (writable : Bool)
    → Cas (update_self self addrs writable) v v'
    → Evolves v v'
unfolding update_self
update_self-Evolves {v} self addrs writable c =
    let (_, g) = guard-edited _ abort _ c.after c.bump c.by_edit in
    let (a, b) = edited-injective g in
    record {
      epoch_up = stamped_epoch c (sym (ap (λ (x : View). x.epoch) a));
      same_or_new = λ q h. inr (
          update_pending-same self addrs writable v.pending q
            (ap (λ (x : View). x.pending) a ∙ sym (stamped_pending c) ∙ h));
    }

Aside-Evolves : {v v' : View} → Aside v v' → Evolves v v'
Aside-Evolves a = record {
  epoch_up = a.epoch_up;
  same_or_new = λ q h. inr (q, sym a.pending_kept ∙ h, refl, λ t. t);
}

pub Step-Evolves : {history : List View} {v v' : View} → Step history v v' → Evolves v v'
Step-Evolves (proposes now reason build t c) = propose-Evolves now reason build t c
Step-Evolves (freezes now id c) = freeze-Evolves now id c
Step-Evolves (refreezes now force c) = refreeze-Evolves now force c
Step-Evolves (commits now seen p i s f c) = commit-Evolves now p.id p.round c
Step-Evolves (acks id self c) = ack-Evolves id self c
Step-Evolves (reports_primary id self c) =
    cas_pending-Evolves id (add_primary self) (λ p. (refl, refl)) c
Step-Evolves (reports_done id self c) = cas_pending-Evolves id (add_done self) (λ p. (refl, refl)) c
Step-Evolves (aborts c) = abort-Evolves c
Step-Evolves (updates_self self addrs writable c) = update_self-Evolves self addrs writable c
Step-Evolves (does_aside a) = Aside-Evolves a
