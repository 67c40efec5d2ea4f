-- ===== src/Memory.antt =====
-- src/core/memory: the memories that prompts are built from.
pub mod Entries
pub mod Ranked
pub mod Budget
mod Examples
