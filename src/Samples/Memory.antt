-- ===== src/Samples/Memory.antt =====
-- A database in memory that never fails, and a cluster of one voter over it.
use mathlib.Core.Option.{some-injective}
use dstore.Prelude.{ap, sym, ℕ, refl, inr, false, Option, none, some, [], ◌∷◌}
use dstore.Bytes.{Bytes}
use dstore.View.{View, sync_done}
use dstore.Paxos.Ballot.{zero_ballot}
use dstore.Paxos.Disk.{Disk, Row, Meta, answer, row_after, meta_after}
use dstore.Paxos.Acceptor.{Acceptor}
use dstore.Paxos.Protocol.{Net}

pub record MemoryDb : Type 0 where
  pub rows : Bytes → Option Row
  pub keys : Meta

abbrev pub memory : Disk
memory = record {
  Db = MemoryDb;
  row_at = λ d. d.rows;
  meta_at = λ d. d.keys;
  read = λ d k. answer (d.rows k);
  commit =
      λ d ws. some (record { rows = λ k. row_after ws k (d.rows k); keys = meta_after ws d.keys });
  iterate = λ d lower upper. none;
  encode = λ v. some (v.epoch ∷ []);
  decode = λ b. none;
  read_law = λ d k. inr refl;
  commit_rows = λ d d' ws k e. ap (λ (x : MemoryDb). x.rows k) (sym (some-injective _ _ e));
  commit_meta = λ d d' ws e. ap (λ (x : MemoryDb). x.keys) (sym (some-injective _ _ e));
}

abbrev pub no_rows : MemoryDb
no_rows = record {
  rows = λ k. none;
  keys = record { floor = none; marker = none; view = none; retired = false };
}

abbrev pub one_voter : View
one_voter = record {
  cluster_id = 1 ∷ [];
  incarnation = 1;
  epoch = 3;
  version = 5;
  placement_epoch = 1;
  replicas = 1;
  min_replicas = 1;
  voters = record { id = 7; since = 2 } ∷ [];
  voter_sync = sync_done;
  voter_sync_cursor = [];
  nodes = [];
  pending = none;
  former = [];
  fenced = [];
  recovered_inc = 0;
  recovered_epoch = 0;
  rebalance_pause = false;
  rate_cap = 0;
  voter_sync_target = [];
  voter_sync_add = false;
  deferred_voters = [];
  acl = none;
  ramps = [];
  remove_voters = [];
}

-- The acceptor of node `id`, with an empty database.
abbrev pub fresh_acceptor : ℕ → Acceptor memory
fresh_acceptor id = record {
  self = id;
  db = no_rows;
  closed = false;
  installed = some one_voter;
  marker = some 2;
  retired = false;
  floor = zero_ballot;
}

abbrev pub start_net : Net memory
start_net = record { acceptors = fresh_acceptor; promises = []; votes = []; proposals = [] }
