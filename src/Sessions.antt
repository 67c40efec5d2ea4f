-- ===== src/Sessions.antt =====
-- src/core/agents/session-pool.ts: the reusable sessions of the agents.
pub mod Pool
pub mod Exclusive
pub mod Stats
mod Examples
