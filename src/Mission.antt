-- ===== src/Mission.antt =====
-- src/core/loop: the mission loop, which prompts a session until its mission is complete.
pub mod Tracker
pub mod TrackerLaws
pub mod LoopState
pub mod State
pub mod World
pub mod Handler
pub mod Runs
pub mod Counted
pub mod CountedLaws
pub mod Advanced
pub mod Fired
pub mod Kept
pub mod Guarded
pub mod Compacted
mod Examples
