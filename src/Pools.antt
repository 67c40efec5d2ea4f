-- ===== src/Pools.antt =====
-- src/core/pool: the pools of objects, buffers and texts.
pub mod Objects
pub mod ObjectsLaws
pub mod Buffers
pub mod BuffersLaws
pub mod Strings
pub mod StringsLaws
mod ObjectsExamples
mod StringsExamples
