-- ===== src/Cache.antt =====
-- core/cache: which responses may be stored and for how long (Policy), the store itself (Store),
-- and the part that one request plays in it (Processor, Serve).
pub mod Policy
pub mod Store
pub mod Processor
pub mod Serve
