-- ===== src/Cache.antt =====
-- cache/: the sparse cache file of one object, and the cache over all of them.
pub mod Write
pub mod Item
pub mod Clean
pub mod Existing
pub mod Options
