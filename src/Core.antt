-- ===== src/Core.antt =====
-- src/beam_agents/core: the stateful activation engine of one keyed agent stream.
pub mod Migration
pub mod Batching
pub mod State
pub mod Engine
pub mod Admission
pub mod Elements
pub mod IntentId
pub mod Context
pub mod Loop
pub mod AgentContext
pub mod Process
pub mod Timers
pub mod HitlTimer
pub mod Callbacks
pub mod Invariant
pub mod Leaves
pub mod Accounting
mod Tests
