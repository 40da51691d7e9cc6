-- ===== src/Stats.antt =====
-- The stats backend (backends/stats): counters, integer values and sets in memory, and the command
-- handlers over them.
pub mod Memory
pub mod Metrics
pub mod Session
mod Replies
pub mod Handlers
pub mod SetHandlers
pub mod Commands
