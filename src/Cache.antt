-- ===== src/Cache.antt =====
-- The cache of packages/cache/src: its lifetimes and its memory driver.
pub mod Ttl
pub mod Memory
pub mod Tests
