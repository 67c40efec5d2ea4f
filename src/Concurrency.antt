-- ===== src/Concurrency.antt =====
-- src/core/agents/concurrency.ts and concurrency-token.ts: slots for each key with a priority queue,
-- a circuit breaker and adaptive limits.
pub mod State
pub mod Control
pub mod Cases
pub mod Runs
pub mod Breaker
pub mod Queue
pub mod Frame
pub mod Scaling
pub mod Slots
pub mod Fairness
pub mod Token
mod Examples
