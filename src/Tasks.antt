-- ===== src/Tasks.antt =====
-- src/core/agents/task-store.ts: the parallel tasks in memory, what is pending for each parent session,
-- and the notifications that wait for it.
pub mod Store
pub mod Collection
pub mod Notices
mod Examples
