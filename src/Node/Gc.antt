-- ===== src/Node/Gc.antt =====
-- node/gc.go: the collector.
pub mod Register
pub mod Cycle
pub mod Sweep
pub mod Waves
pub mod Dead
pub mod Mark
pub mod Handlers
pub mod Worker
pub mod Persist
pub mod Input
pub mod Polls
pub mod Cluster
