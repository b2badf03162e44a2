-- ===== src/Samples.antt =====
-- Concrete data, and the theorems applied to it.
mod Memory
mod PaxosRun
mod Cluster
mod Marking
mod References
mod Runs
mod Facts
mod Choices
mod Rounds
mod Counters
mod Transitions
mod Voting
mod Collecting
mod Merging
mod Globs
mod Offering
