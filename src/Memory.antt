-- ===== src/Memory.antt =====
-- src/memory.
pub mod CachingAllocator
