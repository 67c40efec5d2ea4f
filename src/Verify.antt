-- ===== src/Verify.antt =====
-- src/core/loop/verification.ts: whether a mission is complete, by its checklist, todos and sync issues.
pub mod Checklist
pub mod Result
pub mod Todos
pub mod Sync
pub mod Completion
pub mod CompletionLaws
pub mod SubTasks
pub mod Unseen
pub mod SyncLaws
mod Examples
