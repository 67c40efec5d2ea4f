-- ===== src/Recovery.antt =====
-- src/core/recovery and src/shared/errors: the kinds of errors, what is done on them, and the recovery of
-- a session.
pub mod Regex
pub mod Errors
pub mod Handler
pub mod HandlerLaws
pub mod Session
pub mod SessionLaws
mod Examples
