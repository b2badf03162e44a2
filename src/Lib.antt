-- ===== src/Lib.antt =====
-- dstore: a distributed content-addressed store. Its nodes agree on a small set of registers (the cluster
-- view, references, the maintenance lease, join tokens, the state of the collector) by CASPaxos; objects
-- are placed on nodes by rendezvous hashing under the view; clients read the view and talk to the owners.
-- This library models the registers from the acceptor's database up to the catalog, the placement, what the
-- nodes write to the registers as the node set, the voters and the collector go through their phases, the
-- choices of a client, merges and reference globs, as functions and step relations, and proves what makes
-- them correct.
--
-- The parts, by the directory of the repository, and the files that model them:
--   view/view.go          View, View/Types, View/Laws: the view's record, its order, membership, quorums and
--                         the guard on changes of the node set; View/Tables: the owners under the current and
--                         the pending nodes.
--   placement/placement.go  Placement: Slot, Fmix64, Log2Fix, L, less, Rank, Owners and the lookups by key;
--                         Placement/Word, Order, Owners have the lemmas.
--   wire/wire.go          Wire: the types, codes and fields of messages.
--   paxos/ballot.go       Paxos/Ballot; Paxos/Ballot/Encoding.
--   paxos/acceptor.go     Paxos/Acceptor (prepare, accept, read), Paxos/Acceptor/Maintenance (OpenAcceptor,
--                         SetMarker, Install, purge, seed), Paxos/Acceptor/Handle (scan, AllRows, Handle,
--                         Close). A method is a function from the acceptor to the acceptor and a reply;
--                         the mutex makes each of them one step. Paxos/Acceptor/Observe and Rounds say what
--                         a promise and a vote leave in the database.
--   paxos/proposer.go     Paxos/Proposer (prepare and accept rounds), Paxos/Proposer/Propose (Propose,
--                         handleRoundError, ballotAbove, Settle), Paxos/Proposer/Read (Read, ReadAll, Purge).
--   paxos                 Paxos/Protocol: acceptors, messages and proposers together, as a step relation in
--                         which any message may arrive at any time, late, twice or never, and any
--                         handler may fail.
--   catalog/catalog.go    Catalog (RefValue, Cond), Catalog/Refs (RefPut, RefDelete, RefGet), Catalog/Leases,
--                         Catalog/Views (ReadView, CASView, InitView), Catalog/GcState (ReadGC, CASGC).
--   client/batch.go, client/rank.go   Client/Batch, Client/Rank.
--   node/node.go          Node/Ballots: NextBallot and BumpBallot over the counter in meta.
--   node/maintenance.go, node/reconcile.go, node/join.go, and node/node.go, node/admin.go for single edits
--                         Node/Transition: the functions that CASView applies from the proposal of a new
--                         node set to its commit; Transition/Builds has the sets that are proposed,
--                         Transition/Drive what a tick decides, Transition/Entry the abort of a transition
--                         and a node's update of its own entry, Transition/Run a sequence of committed
--                         edits. Node/Voters: the edits by which the voters change.
--   node/gc.go            Node/Gc/Register: the functions that CASGC applies, and observeSweep; Gc/Cycle a
--                         sequence of them; Gc/Sweep: poll, live and provedDead on a node; Gc/Mark and
--                         Gc/Handlers: a worker's mark, Gc/Worker its epoch as steps; Gc/Cluster: the
--                         workers and the batches between them as a step relation; Gc/Polls: how the
--                         coordinator finds its end; Gc/Input: the file of a mark and what a sweep reads
--                         of it; Input/File is its round trip.
--   node/refs.go          Node/RefPut: walkComplete and negotiateComplete, RefPut/Handler the handlers of references;
--                         RefPut/Checked, Results, Ends, Enough, Fuel and Sample are about the walk.
--   node/put.go           Node/Puts: a batch of records, its chunks and its forwards (putTx).
--   node/reconcile.go     Node/Reconcile: rankAmong, when a key is offered and to whom (reconcilePack).
--   worktree/change.go    Worktree: Compare, SameContent, Equivalent.
--   worktree/merge.go     Worktree/Merge: Merge. Merge/Paths and Merge/Sorted are about its searches.
--   refglob/refglob.go    Refglob: Compile to pieces, their meaning, Match.
-- Prelude (with its Lists, Members and Tests) and Bytes are shared; Samples holds concrete data and the theorems at work on it.
--
-- Conventions. A number is a native natural number; words wrap by an explicit `% 2 ^ 64`. A [32]byte id
-- is the number that its bytes spell, and a byte string a list of numbers. A nil error is `none` or `ok`. Code
-- that is not of this repository is a parameter: Pebble with CBOR is the record Disk, the transport with the
-- clock, the adopted view and the ballot counter is the record Network, the encoding of catalog values is the
-- record Codec (what was encoded decodes to itself), that of a mark's header the record HeaderCodec, BLAKE3 is
-- `salt`. How a read or a write of meta ends is an argument.
--
-- Bounds. `propose` and `read` take the number of rounds that begin before the caller's context ends; at zero
-- they answer as the code does when it finds the context over. The loop of ballotAbove is given two rounds:
-- where the first ballot is not above the one to beat, the first round raises the counter to it.
-- walk_complete is given a number of levels of the tree: as many as it has keys and one more are enough.
-- `bit_len` and Log2Fix run 64 and 32 rounds, as in Go.
--
-- Not modelled: the voters' change within a run of Paxos/Protocol (the view is fixed there, and registers are
-- neither purged nor seeded), the listings and join tokens of catalog, the proposer's Scan and Install, the
-- transfer of records between nodes, the files of the working copy, tickets, the transports and the command line.
pub mod Prelude
pub mod Bytes
pub mod View
pub mod Placement
pub mod Wire
pub mod Paxos
pub mod Catalog
pub mod Client
pub mod Node
pub mod Worktree
pub mod Refglob
mod Samples
