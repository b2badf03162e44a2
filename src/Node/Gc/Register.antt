-- ===== src/Node/Gc/Register.antt =====
-- node/gc.go, node/admin.go and node/maintenance.go: what the coordinator and the nodes write to the
-- collector's register. Each function is one that CASGC applies; `now` is the clock in it.
use dstore.Prelude.{
  ℕ, ◌+◌, ◌-◌, ◌*◌, ◌/◌, ◌%◌, ◌^◌, Bool, true, false, ◌&&◌, ◌||◌, not, List, [], ◌∷◌, ◌++◌, map,
  ltb, leb, ◌==◌, if◌then◌else◌, length, any, elem,
}
use dstore.Bytes.{Bytes}
use dstore.View.{add_id}
use dstore.Catalog.GcState.{
  GcState, GcEdit, edited, refused, NodeStat, Phase, idle, barrier, marking, sweeping, aborted,
}

pub data GcRefusal : Type 0 where
  abort barrier_over in_progress on_hold too_soon epoch_changed no_completed_epoch : GcRefusal

unfoldable pub is_idle : Phase → Bool
is_idle idle = true
is_idle _ = false

unfoldable pub is_barrier : Phase → Bool
is_barrier barrier = true
is_barrier _ = false

unfoldable pub is_marking : Phase → Bool
is_marking marking = true
is_marking _ = false

unfoldable pub is_sweeping : Phase → Bool
is_sweeping sweeping = true
is_sweeping _ = false

-- The phases in which an epoch runs.
unfoldable pub is_running : Phase → Bool
unfolding is_barrier is_marking is_sweeping
is_running p = is_barrier p || is_marking p || is_sweeping p

-- runCycle opens an epoch.
unfoldable pub start_cycle : ℕ → ℕ → Bytes → Bool → GcState → GcEdit GcRefusal
unfolding is_running
start_cycle interval now nonce tolerate g =
    if is_running g.phase
    then refused g in_progress
    else if g.hold
    then refused g on_hold
    else if ltb (now - g.barrier_at) interval
    then refused g too_soon
    else edited (record g {
      epoch = (g.epoch + 1) % 2 ^ 64;
      phase = barrier;
      barrier_at = now;
      acked = [];
      mark_done = false;
      sweep_done = [];
      sweep_wave = 0;
      nonce = nonce;
      marked = [];
      error = [];
      missing = [];
      tolerate = tolerate;
      garbage = 0;
    })

-- handleBarrier acknowledges for node `self`.
unfoldable pub ack_barrier : ℕ → ℕ → GcState → GcEdit GcRefusal
unfolding is_barrier
ack_barrier epoch self g =
    if not (g.epoch == epoch) || not (is_barrier g.phase)
    then refused g barrier_over
    else edited (record g { acked = add_id g.acked self })

-- runCycle freezes the acknowledged nodes.
unfoldable pub start_mark : ℕ → ℕ → Bytes → GcState → GcEdit GcRefusal
unfolding is_barrier
start_mark epoch now view g =
    if not (g.epoch == epoch) || not (is_barrier g.phase)
    then refused g epoch_changed
    else edited (record g { phase = marking; snapshot_at = now; placement = view })

-- runCycle hands the sweep to the nodes.
unfoldable pub start_sweep : ℕ → ℕ → List NodeStat → GcState → GcEdit GcRefusal
unfolding is_marking
start_sweep epoch now marked g =
    if not (g.epoch == epoch) || not (is_marking g.phase)
    then refused g epoch_changed
    else edited (record g {
      mark_done = true;
      marked = marked;
      phase = sweeping;
      sweep_wave = 1;
      snapshot_at = now;
    })

-- runCycle reports the missing keys.
unfoldable pub report_missing : List ℕ → GcState → GcEdit GcRefusal
report_missing keys g = edited (record g { missing = keys })

-- abort
unfoldable pub abort_epoch : ℕ → Bytes → GcState → GcEdit GcRefusal
unfolding is_idle is_sweeping
abort_epoch epoch reason g =
    if not (g.epoch == epoch) || is_idle g.phase || is_sweeping g.phase
    then refused g abort
    else edited (record g { phase = aborted; error = reason })

-- resweep
unfoldable pub resweep : ℕ → ℕ → GcState → GcEdit GcRefusal
unfolding is_idle
resweep now garbage g =
    if not (is_idle g.phase) || g.last_ok == 0
    then refused g no_completed_epoch
    else edited (record g {
      epoch = g.last_ok;
      phase = sweeping;
      sweep_done = [];
      sweep_wave = 1;
      garbage = garbage;
      snapshot_at = now;
    })

-- sweep reports node `s.id`.
abbrev pub has_reported : GcState → ℕ → Bool
has_reported g id = any (λ (s : NodeStat). s.id == id) g.sweep_done

unfoldable pub report_sweep : ℕ → NodeStat → GcState → GcEdit GcRefusal
unfolding is_sweeping
report_sweep epoch s g =
    if not (g.epoch == epoch) || not (is_sweeping g.phase)
    then refused g abort
    else if has_reported g s.id
    then refused g abort
    else edited (record g { sweep_done = g.sweep_done ++ s ∷ [] })

-- sweep reports that node `id` has no mark.
unfoldable pub report_no_mark : ℕ → ℕ → GcState → GcEdit GcRefusal
unfolding is_sweeping
report_no_mark epoch id g =
    let stat : NodeStat = record {
      id = id;
      marked = 0;
      live = 0;
      freed = 0;
      packs = 0;
      no_mark = true;
      copied = 0;
      duration = 0;
    } in
    if not (g.epoch == epoch) || not (is_sweeping g.phase)
    then refused g abort
    else edited (record g { sweep_done = g.sweep_done ++ stat ∷ [] })

-- observeSweep closes the epoch.
unfoldable pub close_epoch : ℕ → GcState → GcEdit GcRefusal
unfolding is_sweeping
close_epoch epoch g =
    if not (g.epoch == epoch) || not (is_sweeping g.phase)
    then refused g abort
    else edited (record g { phase = idle; last = g.sweep_done; last_ok = g.epoch })

-- observeSweep releases the next wave.
unfoldable pub release_wave : ℕ → GcState → GcEdit GcRefusal
unfolding is_sweeping
release_wave epoch g =
    if not (g.epoch == epoch) || not (is_sweeping g.phase)
    then refused g abort
    else edited (record g { sweep_wave = g.sweep_wave + 1 })

-- gc-hold of the admin protocol, and RestoreCatalog.
unfoldable pub set_hold : Bool → GcState → GcEdit GcRefusal
set_hold on g = edited (record g { hold = on })

unfoldable pub hold_restored : ℕ → GcState → GcEdit GcRefusal
hold_restored now g = edited (record g { barrier_at = now; hold = true })

-- The nodes that have reported, each once.
unfoldable pub distinct_ids : List ℕ → List ℕ
distinct_ids [] = []
distinct_ids (x ∷ xs) = let rest = distinct_ids xs in if elem x xs then rest else x ∷ rest

abbrev pub reporters : GcState → List ℕ
reporters g = distinct_ids (map (λ (s : NodeStat). s.id) g.sweep_done)

-- A quarter of the acknowledged nodes, rounded up, and one at least.
unfoldable pub quarter : GcState → ℕ
quarter g = let q = (length g.acked + 3) / 4 in if q == 0 then 1 else q

-- How many of the first `n` acknowledged nodes have reported.
unfoldable pub released_done : ℕ → List ℕ → List ℕ → ℕ
released_done n done [] = 0
released_done n done (id ∷ ids) =
    if n == 0 then 0 else (if elem id done then 1 else 0) + released_done (n - 1) done ids

-- What observeSweep does on a tick.
pub data SweepMove : Type 0 where
  closes releases waits : SweepMove

unfoldable pub observe_sweep : ℕ → ℕ → GcState → SweepMove
unfolding distinct_ids quarter released_done
observe_sweep timeout now g =
    let all = length g.acked in
    let limit = g.sweep_wave * quarter g in
    let released = if ltb limit all then limit else all in
    if leb all (length (reporters g)) || ltb timeout (now - g.snapshot_at)
    then closes
    else if leb released (released_done released (reporters g) g.acked) && ltb released all
    then releases
    else waits
