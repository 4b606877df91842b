-- ===== src/KvCache.antt =====
-- src/kvcache: the paged key/value cache.
pub mod BlockPool
pub mod BlockTable
pub mod PagedCache
