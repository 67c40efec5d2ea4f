-- ===== src/Todos.antt =====
-- src/core/todo/todo-manager.ts: the list of todos in a file, with versions.
pub mod Text
pub mod Lines
pub mod Boxes
pub mod Again
pub mod Files
pub mod FilesLaws
pub mod Register
pub mod Items
pub mod ItemsLaws
pub mod Faults
mod Examples
