-- ===== src/Upkeep/Bump.antt =====
-- internal/upkeep/bump.go: the Bump aggregate, and what is proved of it.
pub mod State
pub mod Commands
pub mod Trace
pub mod Errors
pub mod Rounds
pub mod Effects
pub mod Invariant
pub mod Reload
pub mod Cap
pub mod Graph
pub mod Head
pub mod LatePush
