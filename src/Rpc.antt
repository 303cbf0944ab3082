-- ===== src/Rpc.antt =====
-- raftkv/raft-rpc: calls of other nodes over connections that carry bytes.
pub mod Bytes
pub mod Crc32
pub mod Header
pub mod Framing
pub mod Buffer
pub mod Stream
pub mod Serialization
pub mod Dispatcher
pub mod Channel
pub mod Pending
pub mod Kept
pub mod Count
pub mod Counting
pub mod Calls
pub mod Guard
pub mod Closing
pub mod Delivery
pub mod Exchange
pub mod Failures
mod Tests
