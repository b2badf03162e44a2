-- ===== src/Paxos.antt =====
-- paxos/
pub mod Ballot
pub mod Disk
pub mod Acceptor
pub mod Proposer
pub mod Protocol
