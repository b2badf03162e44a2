-- ===== src/Node/Gc/Cycle.antt =====
-- The collector's register over a sequence of committed edits.
use mathlib.Core.Path.{subst}
use native.Mathlib.Nat.{mod-eq_of_lt}
use dstore.Prelude.{
  ℕ, ◌+◌, ◌-◌, ◌%◌, ◌^◌, ◌≤◌, ◌<◌, ◌≡◌, ◌≢◌, refl, sym, ◌∙◌, ap, Bool, true, false, not, ◌||◌, List,
  [], ltb, ◌==◌, ==_iff, if◌then◌else◌, arith,
}
use dstore.Bytes.{Bytes}
use dstore.Catalog.GcState.{
  GcState, GcEdit, edited, refused, no_gc, NodeStat, Phase, idle, barrier, marking, sweeping,
  aborted,
}
use dstore.Node.Gc.Register.{
  GcRefusal, abort, barrier_over, in_progress, on_hold, too_soon, epoch_changed, no_completed_epoch,
  is_idle, is_barrier, is_marking, is_sweeping, is_running, has_reported, start_cycle, ack_barrier,
  start_mark, start_sweep, report_missing, abort_epoch, resweep, report_sweep, report_no_mark,
  close_epoch, release_wave, set_hold, hold_restored,
}

-- One edit that CASGC commits.
pub data GcStep (g g' : GcState) : Type 0 where
  starts :
      (interval now : ℕ) (nonce : Bytes) (tolerate : Bool)
      → g.epoch + 1 < 2 ^ 64
      → start_cycle interval now nonce tolerate g ≡ edited g'
      → GcStep g g'
  acks : (epoch self : ℕ) → ack_barrier epoch self g ≡ edited g' → GcStep g g'
  marks : (epoch now : ℕ) (view : Bytes) → start_mark epoch now view g ≡ edited g' → GcStep g g'
  sweeps :
      (epoch now : ℕ) (marked : List NodeStat)
      → start_sweep epoch now marked g ≡ edited g'
      → GcStep g g'
  misses : (keys : List ℕ) → report_missing keys g ≡ edited g' → GcStep g g'
  aborts : (epoch : ℕ) (reason : Bytes) → abort_epoch epoch reason g ≡ edited g' → GcStep g g'
  resweeps : (now garbage : ℕ) → resweep now garbage g ≡ edited g' → GcStep g g'
  reports : (epoch : ℕ) (s : NodeStat) → report_sweep epoch s g ≡ edited g' → GcStep g g'
  reports_no_mark : (epoch id : ℕ) → report_no_mark epoch id g ≡ edited g' → GcStep g g'
  closes : (epoch : ℕ) → close_epoch epoch g ≡ edited g' → GcStep g g'
  releases : (epoch : ℕ) → release_wave epoch g ≡ edited g' → GcStep g g'
  holds : (on : Bool) → set_hold on g ≡ edited g' → GcStep g g'
  restores : (now : ℕ) → hold_restored now g ≡ edited g' → GcStep g g'

pub data GcRun : GcState → Type 0 where
  begin : GcRun no_gc
  next : {g g' : GcState} → GcRun g → GcStep g g' → GcRun g'

-- The barrier and the mark of an epoch.
unfoldable pub is_before_sweep : Phase → Bool
unfolding is_barrier is_marking
is_before_sweep p = is_barrier p || is_marking p

-- Nothing is left of the epoch before.
pub record Reset (g : GcState) : Type 0 where
  pub mark_done : g.mark_done ≡ false
  pub sweep_done : g.sweep_done ≡ []
  pub sweep_wave : g.sweep_wave ≡ 0

-- The flag of a complete mark is set in a sweep and not before it, where no node has reported and no wave is
-- released; and an idle register is that of the last epoch closed.
pub record Sound (g : GcState) : Type 0 where
  pub last_le : g.last_ok ≤ g.epoch
  pub marked : is_sweeping g.phase ≡ true → g.mark_done ≡ true
  pub closed : is_idle g.phase ≡ true → g.epoch ≡ g.last_ok
  pub kept : is_idle g.phase ≡ true → g.last_ok ≢ 0 → g.mark_done ≡ true
  pub fresh : is_before_sweep g.phase ≡ true → Reset g
  pub wave : is_sweeping g.phase ≡ true → 1 ≤ g.sweep_wave

-- What a step keeps.
pub record Keeps (g g' : GcState) : Type 0 where
  pub sound : Sound g'
  pub epoch_up : g.epoch ≤ g'.epoch

le_refl : (n : ℕ) → n ≤ n
le_refl n = omega arith

to_state : GcState → GcEdit GcRefusal → GcState
to_state d (edited g) = g
to_state d (refused g e) = d

edited-state : {g g' : GcState} → ◌≡◌ {A = GcEdit GcRefusal} (edited g) (edited g') → g ≡ g'
unfolding to_state
edited-state {g} h = ap (to_state g) h

passes :
    (b : Bool) (g : GcState) (e : GcRefusal) (rest : GcEdit GcRefusal) {y : GcState}
    → (if b then refused g e else rest) ≡ edited y
    → (b ≡ false) × (rest ≡ edited y)
passes true g e rest h = cc
passes false g e rest h = (refl, h)

-- The guard of most edits: the epoch is the one meant and the phase the one required.
guard_holds : (a b : Bool) → (not a || not b) ≡ false → (a ≡ true) × (b ≡ true)
guard_holds true true h = (refl, refl)
guard_holds true false h = cc
guard_holds false b h = cc

at_phase :
    (a b : Bool) (g : GcState) (e : GcRefusal) {x y : GcState}
    → (if not a || not b then refused g e else edited x) ≡ edited y
    → (b ≡ true) × (x ≡ y)
at_phase a b g e h =
    let (f, r) = passes (not a || not b) g e _ h in ((guard_holds a b f).1, edited-state r)

idle_holds : (a b : Bool) → (not a || b) ≡ false → (a ≡ true) × (b ≡ false)
idle_holds true b h = (refl, h)
idle_holds false b h = cc

sweeping-no_barrier : (p : Phase) → is_sweeping p ≡ true → is_before_sweep p ≡ false
unfolding is_sweeping is_before_sweep
sweeping-no_barrier idle h = refl
sweeping-no_barrier barrier h = cc
sweeping-no_barrier marking h = cc
sweeping-no_barrier sweeping h = refl
sweeping-no_barrier aborted h = refl

barrier-before : (p : Phase) → is_barrier p ≡ true → is_before_sweep p ≡ true
unfolding is_before_sweep
barrier-before p h = ground arith

-- An edit that leaves the epoch, its last completed one, the phase and the mark alone.
module _ {g g' : GcState} (s : Sound g) (e : g.epoch ≡ g'.epoch) (l : g.last_ok ≡ g'.last_ok)
    (p : g.phase ≡ g'.phase) (m : g.mark_done ≡ g'.mark_done) where
  Keeps-if :
      (is_before_sweep g'.phase ≡ true → Reset g')
      → (is_sweeping g'.phase ≡ true → 1 ≤ g'.sweep_wave)
      → Keeps g g'
  Keeps-if fresh wave = record {
    sound = record {
      last_le = omega (arith, s.last_le, e, l);
      marked = λ h. sym m ∙ s.marked (ap is_sweeping p ∙ h);
      closed = λ h. sym e ∙ s.closed (ap is_idle p ∙ h) ∙ l;
      kept = λ h n. sym m ∙ s.kept (ap is_idle p ∙ h) (λ z. n (sym l ∙ z));
      fresh = fresh;
      wave = wave;
    };
    epoch_up = omega (arith, e);
  }

  -- The sweep's waves and reports as well.
  Keeps-same : g.sweep_done ≡ g'.sweep_done → g.sweep_wave ≡ g'.sweep_wave → Keeps g g'
  Keeps-same d w =
      Keeps-if
        (λ h.
          let r = s.fresh (ap is_before_sweep p ∙ h) in
          record {
            mark_done = sym m ∙ r.mark_done;
            sweep_done = sym d ∙ r.sweep_done;
            sweep_wave = sym w ∙ r.sweep_wave;
          })
        (λ h. subst (λ n. 1 ≤ n) w (s.wave (ap is_sweeping p ∙ h)))

  -- An edit of a sweep.
  Keeps-sweep : is_sweeping g.phase ≡ true → g.sweep_wave ≤ g'.sweep_wave → Keeps g g'
  Keeps-sweep k w =
      Keeps-if (λ h. absurd (cc (sweeping-no_barrier g'.phase (ap is_sweeping (sym p) ∙ k), h)))
        (λ h. omega (arith, s.wave k, w))

-- An edit whose result is neither idle nor sweeping.
Keeps-midway :
    {g g' : GcState}
    → Sound g
    → g.epoch ≤ g'.epoch
    → g.last_ok ≡ g'.last_ok
    → is_sweeping g'.phase ≡ false
    → is_idle g'.phase ≡ false
    → (is_before_sweep g'.phase ≡ true → Reset g')
    → Keeps g g'
Keeps-midway {g} {g'} s e l ns ni fresh = record {
  sound = record {
    last_le = omega (arith, s.last_le, e, l);
    marked = λ h. cc;
    closed = λ h. cc;
    kept = λ h n. cc;
    fresh = fresh;
    wave = λ h. cc;
  };
  epoch_up = e;
}

starts-Keeps :
    {g g' : GcState} (interval now : ℕ) (nonce : Bytes) (tolerate : Bool)
    → Sound g
    → g.epoch + 1 < 2 ^ 64
    → start_cycle interval now nonce tolerate g ≡ edited g'
    → Keeps g g'
unfolding start_cycle is_idle is_sweeping is_before_sweep
starts-Keeps {g} {g'} interval now nonce tolerate s small h =
    let r = passes (is_running g.phase) g in_progress _ h in
    let r2 = passes g.hold g on_hold _ (r.1) in
    let r3 = passes (ltb (now - g.barrier_at) interval) g too_soon _ (r2.1) in
    let up : g.epoch ≤ (g.epoch + 1) % 2 ^ 64 = omega (arith, mod-eq_of_lt small) in
    subst (λ x. Keeps g x) (edited-state (r3.1))
      (Keeps-midway s up refl refl refl
        (λ _. record { mark_done = refl; sweep_done = refl; sweep_wave = refl }))

sweeps-Keeps :
    {g g' : GcState} (epoch now : ℕ) (marked : List NodeStat)
    → Sound g
    → start_sweep epoch now marked g ≡ edited g'
    → Keeps g g'
unfolding start_sweep is_idle is_sweeping is_before_sweep
sweeps-Keeps {g} {g'} epoch now marked s h =
    let r = at_phase (g.epoch == epoch) (is_marking g.phase) g epoch_changed h in
    subst (λ x. Keeps g x) (r.1)
      (record {
        sound = record {
          last_le = s.last_le;
          marked = λ p. refl;
          closed = λ p. cc;
          kept = λ p n. cc;
          fresh = λ p. cc;
          wave = λ p. omega arith;
        };
        epoch_up = omega arith;
      })

resweeps-Keeps :
    {g g' : GcState} (now garbage : ℕ) → Sound g → resweep now garbage g ≡ edited g' → Keeps g g'
unfolding resweep is_idle is_sweeping is_before_sweep
resweeps-Keeps {g} {g'} now garbage s h =
    let r = passes (not (is_idle g.phase) || g.last_ok == 0) g no_completed_epoch _ h in
    let q = idle_holds (is_idle g.phase) (g.last_ok == 0) (r.0) in
    let nz : g.last_ok ≢ 0 = λ z. cc (q.1, (==_iff g.last_ok 0).1 z) in
    subst (λ x. Keeps g x) (edited-state (r.1))
      (record {
        sound = record {
          last_le = omega arith;
          marked = λ p. s.kept (q.0) nz;
          closed = λ p. cc;
          kept = λ p n. cc;
          fresh = λ p. cc;
          wave = λ p. omega arith;
        };
        epoch_up = omega (arith, s.closed (q.0));
      })

-- A re-sweep opens the last completed epoch.
pub epoch-resweep :
    (g g' : GcState) (now garbage : ℕ) → resweep now garbage g ≡ edited g' → g'.epoch ≡ g.last_ok
unfolding resweep
epoch-resweep g g' now garbage h =
    let r = passes (not (is_idle g.phase) || g.last_ok == 0) g no_completed_epoch _ h in
    sym (ap (λ (x : GcState). x.epoch) (edited-state (r.1)))

closes-Keeps : {g g' : GcState} (epoch : ℕ) → Sound g → close_epoch epoch g ≡ edited g' → Keeps g g'
unfolding close_epoch is_idle is_sweeping is_before_sweep
closes-Keeps {g} {g'} epoch s h =
    let r = at_phase (g.epoch == epoch) (is_sweeping g.phase) g abort h in
    subst (λ x. Keeps g x) (r.1)
      (record {
        sound = record {
          last_le = omega arith;
          marked = λ p. cc;
          closed = λ p. refl;
          kept = λ p n. s.marked (r.0);
          fresh = λ p. cc;
          wave = λ p. cc;
        };
        epoch_up = omega arith;
      })

GcStep-Keeps : {g g' : GcState} → Sound g → GcStep g g' → Keeps g g'
unfolding ack_barrier start_mark report_missing abort_epoch report_sweep report_no_mark release_wave
    set_hold hold_restored is_idle is_sweeping is_before_sweep
GcStep-Keeps {g} {g'} s (starts i n c t small h) = starts-Keeps i n c t s small h
GcStep-Keeps {g} {g'} s (acks epoch self h) =
    let r = at_phase (g.epoch == epoch) (is_barrier g.phase) g barrier_over h in
    subst (λ x. Keeps g x) (r.1) (Keeps-same s refl refl refl refl refl refl)
GcStep-Keeps {g} {g'} s (marks epoch now view h) =
    let r = at_phase (g.epoch == epoch) (is_barrier g.phase) g epoch_changed h in
    let f = s.fresh (barrier-before g.phase (r.0)) in
    subst (λ x. Keeps g x) (r.1)
      (Keeps-midway s (le_refl g.epoch) refl refl refl (λ _. record {
        mark_done = f.mark_done;
        sweep_done = f.sweep_done;
        sweep_wave = f.sweep_wave;
      }))
GcStep-Keeps {g} {g'} s (sweeps e n m h) = sweeps-Keeps e n m s h
GcStep-Keeps {g} {g'} s (misses keys h) =
    subst (λ x. Keeps g x) (edited-state h) (Keeps-same s refl refl refl refl refl refl)
GcStep-Keeps {g} {g'} s (aborts epoch reason h) =
    let r = passes (not (g.epoch == epoch) || is_idle g.phase || is_sweeping g.phase) g abort _ h in
    subst (λ x. Keeps g x) (edited-state (r.1))
      (Keeps-midway s (le_refl g.epoch) refl refl refl (λ p. let e : false ≡ true = p in cc))
GcStep-Keeps {g} {g'} s (resweeps n b h) = resweeps-Keeps n b s h
GcStep-Keeps {g} {g'} s (reports epoch n h) =
    let r = passes (not (g.epoch == epoch) || not (is_sweeping g.phase)) g abort _ h in
    let r2 = passes (has_reported g n.id) g abort _ (r.1) in
    subst (λ x. Keeps g x) (edited-state (r2.1))
      (Keeps-sweep s refl refl refl refl
        (guard_holds (g.epoch == epoch) (is_sweeping g.phase) (r.0)).1 (omega arith))
GcStep-Keeps {g} {g'} s (reports_no_mark epoch id h) =
    let r = at_phase (g.epoch == epoch) (is_sweeping g.phase) g abort h in
    subst (λ x. Keeps g x) (r.1) (Keeps-sweep s refl refl refl refl (r.0) (omega arith))
GcStep-Keeps {g} {g'} s (closes e h) = closes-Keeps e s h
GcStep-Keeps {g} {g'} s (releases epoch h) =
    let r = at_phase (g.epoch == epoch) (is_sweeping g.phase) g abort h in
    subst (λ x. Keeps g x) (r.1) (Keeps-sweep s refl refl refl refl (r.0) (omega arith))
GcStep-Keeps {g} {g'} s (holds on h) =
    subst (λ x. Keeps g x) (edited-state h) (Keeps-same s refl refl refl refl refl refl)
GcStep-Keeps {g} {g'} s (restores now h) =
    subst (λ x. Keeps g x) (edited-state h) (Keeps-same s refl refl refl refl refl refl)

-- In a register that any run of committed edits reaches, a sweeping epoch has the flag of a complete mark and
-- a wave released; one before its sweep has neither, and no node's report; an idle register is that of the
-- last epoch closed, and no epoch is below the last one closed.
pub GcRun-Sound : {g : GcState} → GcRun g → Sound g
unfolding is_idle is_sweeping is_before_sweep
GcRun-Sound begin = record {
  last_le = omega arith;
  marked = λ p. cc;
  closed = λ p. refl;
  kept = λ p n. absurd (n refl);
  fresh = λ p. cc;
  wave = λ p. cc;
}
GcRun-Sound (next r step) = (GcStep-Keeps (GcRun-Sound r) step).sound

-- No edit that follows such a run lowers the epoch, a re-sweep included.
pub GcStep-epoch_up : {g g' : GcState} → GcRun g → GcStep g g' → g.epoch ≤ g'.epoch
GcStep-epoch_up r step = (GcStep-Keeps (GcRun-Sound r) step).epoch_up
