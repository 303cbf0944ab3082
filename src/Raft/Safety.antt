-- ===== src/Raft/Safety.antt =====
-- Terms, votes and what is saved of them, over every step of a node.
pub mod Advance
pub mod Votes
pub mod Entries
pub mod Snapshots
pub mod Steps
pub mod Histories
pub mod Restarts
