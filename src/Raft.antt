-- ===== src/Raft.antt =====
-- The consensus layer, raftkv/raft-core: one child module for each part of the class `Raft`.
pub mod Types
pub mod Message
pub mod State
pub mod Frame
pub mod Log
pub mod Timer
pub mod Persist
pub mod Role
pub mod Vote
pub mod Commit
pub mod Append
pub mod Snapshot
pub mod Client
pub mod Dispatch
pub mod History
pub mod Safety
pub mod Integrity
mod Tests
mod HistoryTests
