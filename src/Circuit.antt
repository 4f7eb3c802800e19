-- ===== src/Circuit.antt =====
-- helpers/circuit: the circuit breakers that sources share.
pub mod Registry
pub mod Classify
pub mod Transport
pub mod Content
pub mod Window
pub mod Fetcher
