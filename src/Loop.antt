-- ===== src/Loop.antt =====
-- src/core/loop: the circuit breaker against repeated tools, and the guard of compactions.
pub mod Circuit
pub mod CircuitLaws
pub mod Guard
pub mod GuardLaws
pub mod Countdown
pub mod Handlers
pub mod CountdownLaws
pub mod Aborted
pub mod Silence
pub mod Orphan
mod CountdownExamples
