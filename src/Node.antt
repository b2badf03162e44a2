-- ===== src/Node.antt =====
-- node: the parts of a node that the registers rest on.
pub mod Ballots
pub mod Transition
pub mod Voters
pub mod Gc
pub mod Reconcile
pub mod RefPut
pub mod Puts
