-- ===== src/Client.antt =====
-- client: the choices that a client makes before it talks to nodes.
pub mod Batch
pub mod Rank
