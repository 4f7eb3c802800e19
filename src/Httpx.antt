-- ===== src/Httpx.antt =====
-- The HTTP stack (helpers/httpx).
pub mod Retry
pub mod Prune
pub mod Cache
