-- ===== src/Node/Transition/Safety.antt =====
-- The placement set changes only by the commit of a frozen transition that every participant finished.
use mathlib.Core.Option.{some-injective}
use mathlib.Core.Path.{subst}
use dstore.Prelude.{
  ℕ, ◌≤◌, ◌≡◌, ◌⊎◌, inl, inr, refl, sym, ◌∙◌, ap, Bool, true, false, not, ◌||◌, some, List, ◌∷◌,
  ◌==◌, ==_iff, In, arith, some-ne-none,
}
use dstore.View.{View, Pending}
use dstore.Catalog.Views.{Edit}
use dstore.Node.Transition.{
  EditError, new_pending, freeze_pending, freeze_edit, refreeze_pending, refreeze_edit,
  commit_pending, commit_edit, ack_pending, ack_edit, cas_pending, all_in, abort, no_frozen,
}
use dstore.View.Tables.{members}
use dstore.Node.Transition.Entry.{abort_transition, update_self, members-update_entry}
use dstore.Node.Transition.Run.{
  Cas, Step, Run, proposes, freezes, refreezes, commits, acks, reports_primary, reports_done,
  aborts, updates_self, does_aside, begin, next,
}
use dstore.Node.Transition.Evolves.{
  Evolves, Step-Evolves, on_pending-edited, guard-edited, edited-injective, propose_built-edited,
  propose-built, stamped_nodes,
}

-- No earlier transition has a later id, and one that was frozen stays so while it runs.
record Inv (v : View) (history : List View) : Type 0 where
  current : In v history
  older :
      (o : View) (q : Pending)
      → In o history
      → o.pending ≡ some q
      → (q.id ≤ v.epoch)
        × (q.frozen ≡ true → (p : Pending) → v.pending ≡ some p → p.id ≡ q.id → p.frozen ≡ true)

Evolves-Inv :
    {v v' : View} {history : List View} → Inv v history → Evolves v v' → Inv v' (v' ∷ history)
Evolves-Inv {v} {v'} {history} i s = record {
  current = inl refl;
  older = λ o q m h. elim m [
    | inl e ↦
        let h' : v'.pending ≡ some q = ap (λ (x : View). x.pending) e ∙ h in
        (
          elim (s.same_or_new q h') [
            | inl n ↦ n.1
            | inr (p, old, id, keep) ↦ omega (arith, id, (i.older v p i.current old).0, s.epoch_up)
          ],
          λ f p hp id.
              subst (λ (x : Pending). x.frozen ≡ true) (some-injective q p (sym h' ∙ hp)) f,
        )
    | inr m' ↦
        let (le, frozen) = i.older o q m' h in
        (
          omega (arith, s.epoch_up),
          λ f p' hp' id. elim (s.same_or_new p' hp') [
            | inl n ↦ absurd (omega (arith, n.0))
            | inr (p, old, same, keep) ↦ keep (frozen f p old (sym same ∙ id))
          ],
        )
  ];
}

Run-Inv : {start v : View} {history : List View} → Run start v history → Inv v history
Run-Inv (begin e) = record {
  current = inl refl;
  older = λ o q m h. elim m [
    | inl e' ↦ some-ne-none (sym h ∙ ap (λ (x : View). x.pending) (sym e') ∙ e)
    | inr n ↦ absurd n
  ];
}
Run-Inv (next r s) = Evolves-Inv (Run-Inv r) (Step-Evolves s)

-- The commit of a transition, with what it checks.
pub record Commits (v v' : View) : Type 0 where
  pub pending : Pending
  pub runs : v.pending ≡ some pending
  pub frozen : pending.frozen ≡ true
  pub all_done : all_in pending.done pending.participants ≡ true
  pub becomes : v'.nodes ≡ pending.nodes

not-false : (b : Bool) → not b ≡ false → b ≡ true
not-false true h = refl
not-false false h = sym h

or-false : (a b : Bool) → (a || b) ≡ false → (a ≡ false) × (b ≡ false)
or-false true b h = cc
or-false false b h = (refl, h)

commit-Commits :
    {v v' : View} {history : List View} (now : ℕ) (seen : View) (p : Pending)
    → Inv v history
    → In seen history
    → seen.pending ≡ some p
    → p.frozen ≡ true
    → Cas (commit_edit now p.id p.round) v v'
    → Commits v v'
unfolding commit_edit commit_pending
commit-Commits {v} now seen p i m e f c =
    let (q, o, h) = on_pending-edited v.pending abort _ c.after c.bump c.by_edit in
    let (ids, g) =
      guard-edited (not (q.id == p.id) || not (q.round == p.round)) abort _ c.after c.bump h in
    let (done, k) = guard-edited (not (all_in q.done q.participants)) abort _ c.after c.bump g in
    let same : q.id ≡ p.id = (==_iff q.id p.id).0 (not-false (q.id == p.id) (or-false _ _ ids).0) in
    record {
      pending = q;
      runs = o;
      frozen = (i.older seen p m e).1 f q o same;
      all_done = not-false _ done;
      becomes = stamped_nodes c ∙ sym (ap (λ (x : View). x.nodes) (edited-injective k).0);
    }

-- The nodes that an edit of the running transition leaves.
set_nodes :
    {e : View → Edit EditError} {v v' : View} (c : Cas e v v') (p' : Pending)
    → record v { pending = some p' } ≡ c.after
    → v'.nodes ≡ v.nodes
set_nodes c p' h = stamped_nodes c ∙ sym (ap (λ (x : View). x.nodes) h)

-- In every run of the view from one with no transition, a step changes the placement set, the nodes with
-- their weights and zones, only by committing the transition that runs, which is frozen and which every
-- participant reported done; the new set is that transition's.
pub Step-Commits :
    {start v v' : View} {history : List View}
    → Run start v history
    → Step history v v'
    → (members v'.nodes ≡ members v.nodes) ⊎ Commits v v'
unfolding freeze_edit freeze_pending refreeze_edit refreeze_pending ack_edit ack_pending cas_pending
    abort_transition update_self
Step-Commits {v} r (proposes now reason build t c) =
    let (w, p, e, b, a) =
      propose_built-edited _ c.after c.bump (propose-built now reason build c) in
    inl (
      ap members (
        stamped_nodes c
        ∙ sym (ap (λ (x : View). x.nodes) a)
        ∙ (t.tame v w (new_pending now reason v) p e).0))
Step-Commits {v} r (freezes now id c) =
    let (p, o, h) = on_pending-edited v.pending abort _ c.after c.bump c.by_edit in
    let (_, g) = guard-edited _ abort _ c.after c.bump h in
    inl (ap members (set_nodes c _ (edited-injective g).0))
Step-Commits {v} r (refreezes now force c) =
    let (p, o, h) = on_pending-edited v.pending no_frozen _ c.after c.bump c.by_edit in
    let (_, g) = guard-edited _ no_frozen _ c.after c.bump h in
    let (_, k) = guard-edited _ abort _ c.after c.bump g in
    inl (ap members (set_nodes c _ (edited-injective k).0))
Step-Commits r (commits now seen p m e f c) = inr (commit-Commits now seen p (Run-Inv r) m e f c)
Step-Commits {v} r (acks id self c) =
    let (p, o, h) = on_pending-edited v.pending abort _ c.after c.bump c.by_edit in
    let (_, g) = guard-edited _ abort _ c.after c.bump h in
    inl (ap members (set_nodes c _ (edited-injective g).0))
Step-Commits {v} r (reports_primary id self c) =
    let (p, o, h) = on_pending-edited v.pending abort _ c.after c.bump c.by_edit in
    let (_, g) = guard-edited _ abort _ c.after c.bump h in
    inl (ap members (set_nodes c _ (edited-injective g).0))
Step-Commits {v} r (reports_done id self c) =
    let (p, o, h) = on_pending-edited v.pending abort _ c.after c.bump c.by_edit in
    let (_, g) = guard-edited _ abort _ c.after c.bump h in
    inl (ap members (set_nodes c _ (edited-injective g).0))
Step-Commits {v} r (aborts c) =
    let (p, o, h) = on_pending-edited v.pending abort _ c.after c.bump c.by_edit in
    inl (ap members (stamped_nodes c ∙ sym (ap (λ (x : View). x.nodes) (edited-injective h).0)))
Step-Commits {v} r (updates_self self addrs writable c) =
    let (_, g) = guard-edited _ abort _ c.after c.bump c.by_edit in
    inl (
      ap members (stamped_nodes c ∙ sym (ap (λ (x : View). x.nodes) (edited-injective g).0))
      ∙ members-update_entry self addrs writable v.nodes)
Step-Commits r (does_aside a) = inl (ap members a.nodes_kept)
