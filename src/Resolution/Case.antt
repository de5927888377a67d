-- ===== src/Resolution/Case.antt =====
-- internal/resolution/case.go: the Case aggregate, and what is proved of it.
pub mod State
pub mod Commands
pub mod Trace
pub mod Errors
pub mod Attempts
pub mod Effects
pub mod Invariant
pub mod Graph
pub mod Gate
pub mod Bound
pub mod Rows
pub mod Persist
pub mod Reload
pub mod Outcomes
