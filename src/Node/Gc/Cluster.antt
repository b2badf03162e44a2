-- ===== src/Node/Gc/Cluster.antt =====
-- node/gc.go: the workers of one epoch together. A worker has its mark and the batch that its loop has in
-- hand; packets are the batches that have left a worker and have not arrived. Every step is one of a
-- worker's functions in Mark and Handlers.
pub mod Grows
pub mod Delivered
pub mod Process
pub mod Processed
pub mod State
pub mod Leads
pub mod Moves
pub mod Steps
pub mod Loop
pub mod Sending
pub mod Arriving
pub mod Complete
pub mod Kept
