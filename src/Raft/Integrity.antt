-- ===== src/Raft/Integrity.antt =====
-- The log of a node as an invariant, and the calls on such a log.
pub mod Invariant
pub mod Sending
pub mod Votes
pub mod Entries
pub mod Answers
pub mod Snapshots
pub mod Messages
