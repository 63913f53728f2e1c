-- ===== src/FriendlyCache.antt =====
-- The cache under document/laboratory/cpp/FriendlyCache.
pub mod Pool
pub mod LruCache
pub mod Nodes
pub mod Recency
pub mod Valid
pub mod Refine
pub mod Grow
pub mod Run
pub mod Latest
mod Tests
