-- ===== src/Cache.antt =====
-- src/cache.rs: the state cache in Redis.
pub mod Index
pub mod Read
pub mod Write
pub mod Delete
pub mod Consistent
pub mod Success
pub mod Jobs
pub mod RoundTrip
pub mod Spec
pub mod Commands
pub mod Update
