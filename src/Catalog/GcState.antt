-- ===== src/Catalog/GcState.antt =====
-- catalog/catalog.go: the state of the collector's register, ReadGC and CASGC. The garbage ratio, a float,
-- stands as the number that encodes it; only its being positive matters.
use dstore.Prelude.{ℕ, Bool, true, false, Option, none, some, List, [], ◌∷◌, if◌then◌else◌}
use dstore.Bytes.{Bytes}
use dstore.Paxos.Ballot.{Ballot}
use dstore.Paxos.Proposer.{Row, Round, ok, err}
use dstore.Paxos.Proposer.Propose.{Network, Change, commit, reject, Failure, propose}
use dstore.Paxos.Proposer.Read.{read}

-- The phases, PhaseIdle to PhaseAborted.
pub data Phase : Type 0 where
  idle barrier marking sweeping aborted : Phase

pub record NodeStat : Type 0 where
  pub id : ℕ
  pub marked : ℕ
  pub live : ℕ
  pub freed : ℕ
  pub packs : ℕ
  pub no_mark : Bool
  pub copied : ℕ
  pub duration : ℕ

pub record GcState : Type 0 where
  pub epoch : ℕ
  pub phase : Phase
  pub barrier_at : ℕ
  pub snapshot_at : ℕ
  pub placement : Bytes
  pub acked : List ℕ
  pub mark_done : Bool
  pub sweep_wave : ℕ
  pub sweep_done : List NodeStat
  pub hold : Bool
  pub last : List NodeStat
  pub nonce : Bytes
  pub marked : List NodeStat
  pub error : Bytes
  pub missing : List ℕ
  pub tolerate : Bool
  pub last_ok : ℕ
  pub garbage : ℕ

-- GCState{}
abbrev pub no_gc : GcState
no_gc = record {
  epoch = 0;
  phase = idle;
  barrier_at = 0;
  snapshot_at = 0;
  placement = [];
  acked = [];
  mark_done = false;
  sweep_wave = 0;
  sweep_done = [];
  hold = false;
  last = [];
  nonce = [];
  marked = [];
  error = [];
  missing = [];
  tolerate = false;
  last_ok = 0;
  garbage = 0;
}

-- The codec package on values of the register.
pub record GcCodec : Type 0 where
  pub encode : GcState → Bytes
  pub decode : Bytes → Option GcState

-- The register's name, "gc".
abbrev pub gc_reg : Bytes
gc_reg = 103 ∷ 99 ∷ []

-- The errors of CASGC: those of the function applied, and a value that does not decode.
pub data GcError (E : Type 0) : Type 0 where
  of_edit : E → GcError E
  bad_gc : GcError E

-- What a function given to CASGC does to the state: it may have changed it when it fails.
pub data GcEdit (E : Type 0) : Type 0 where
  edited : GcState → GcEdit E
  refused : GcState → E → GcEdit E

module _ (C : GcCodec) where
  -- The state of a row, GCState{} where it has none.
  unfoldable pub row_gc : Row → Option GcState
  row_gc row = if row.has_value then C.decode row.value else some no_gc

  module _ {E : Type 0} (fn : GcState → GcEdit E) where
    -- The change function of CASGC; the state is the captured `out`.
    unfoldable pub gc_applied : GcEdit E → GcState × Change (GcError E)
    gc_applied (edited g) = (g, commit (C.encode g) true)
    gc_applied (refused g e) = (g, reject (of_edit e))

    unfoldable pub gc_change : GcState → Row → Ballot → GcState × Change (GcError E)
    unfolding row_gc gc_applied
    gc_change out row b = elim (row_gc row) [
      | none ↦ (out, reject bad_gc)
      | some g ↦ gc_applied (fn g)
    ]

    unfoldable pub cas_gc :
        (N : Network) → ℕ → N.World → N.World × GcState × Option (Failure (GcError E))
    unfolding gc_change propose
    cas_gc N attempts w =
        let done = propose N gc_reg gc_change 0 attempts w no_gc in (done.0, done.1, done.2.error)

  unfoldable pub gc_of_round : Round Row → Round (Option GcState)
  unfolding row_gc
  gc_of_round (err e) = err e
  gc_of_round (ok row) = ok (row_gc row)

  unfoldable pub read_gc : (N : Network) → ℕ → N.World → N.World × Round (Option GcState)
  unfolding gc_of_round read
  read_gc N attempts w = let found = read N gc_reg attempts w in (found.0, gc_of_round found.1)
