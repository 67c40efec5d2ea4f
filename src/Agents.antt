-- ===== src/Agents.antt =====
-- src/core/agents/manager.ts and src/core/agents/manager: the life of parallel tasks.
pub mod Manager
pub mod Life
pub mod Launch
pub mod Pending
pub mod Notified
pub mod Slots
mod Examples
