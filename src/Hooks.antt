-- ===== src/Hooks.antt =====
-- src/hooks/registry.ts: the registry of hooks, their order, and their execution.
pub mod Registry
pub mod Order
pub mod OrderLaws
pub mod Enough
pub mod Execute
pub mod ExecuteLaws
mod Examples
