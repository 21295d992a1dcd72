-- ===== src/Cache.antt =====
-- engine/cache: the block allocator, the request block mappings and the prefix cache.
pub mod Blocks
pub mod Paging
pub mod Contiguous
pub mod PrefixInterface
pub mod Prefix
pub mod Geometry
