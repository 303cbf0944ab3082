-- ===== src/MemoryPool.antt =====
-- raftkv/memory-pool: the parts of the pool allocator that are modelled.
pub mod Size
mod SizeTests
