-- ===== src/Clerk.antt =====
-- raftkv/raft-app: the application layer of a node, between the network and the consensus layer.
pub mod Text
pub mod Command
pub mod State
pub mod Send
pub mod Apply
pub mod Snapshot
pub mod Receive
pub mod Dispatch
pub mod Entries
pub mod Replies
pub mod Rounds
pub mod Clients
pub mod Wire
mod Fixtures
mod Tests
