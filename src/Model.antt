-- ===== src/Model.antt =====
-- src/beam_agents/model: what bounds and guards an agent's model calls.
pub mod Budget
pub mod Breaker
pub mod CacheEntry
pub mod ReplayCache
pub mod Retry
pub mod Facade
mod Tests
mod CacheTests
mod FacadeTests
