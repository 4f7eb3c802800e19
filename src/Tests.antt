-- ===== src/Tests.antt =====
-- Runs of the modelled code at concrete inputs, and the theorems at inputs that meet their
-- hypotheses.
mod CadastreTests
mod CircuitTests
mod ClientTests
mod CollectTests
mod MatcherTests
mod MemcacheTests
mod BanxTests
mod CacheTests
mod HttpxTests
mod ResolveTests
mod SourceTests
mod WireTests
mod PruneTests
