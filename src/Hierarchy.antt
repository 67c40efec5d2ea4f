-- ===== src/Hierarchy.antt =====
-- src/core/task: the hierarchy of the tasks of a session.
pub mod Store
pub mod Progress
mod Examples
