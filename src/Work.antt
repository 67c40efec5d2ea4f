-- ===== src/Work.antt =====
-- src/core/queue/work-pool.ts and src/core/queue/async-utils.ts: pools of workers over a list of items,
-- batches, and retries.
pub mod Crew
pub mod Indexed
pub mod CrewLaws
pub mod Batches
pub mod Retry
mod Examples
