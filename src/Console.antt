-- ===== src/Console.antt =====
-- src/beam_agents/console: the part of the console that is its own logic, over no database.
pub mod Feed
mod FeedTests
