-- ===== src/Effector.antt =====
-- src/beam_agents/effector: the service that executes intents at most once per dedup record.
pub mod Dedup
pub mod Runner
pub mod Service
pub mod Redis
pub mod Partitions
mod Tests
