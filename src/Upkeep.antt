-- ===== src/Upkeep.antt =====
-- internal/upkeep: the dependency-update side. A `Bump` is one pull request of dependabot's.
pub mod Enums
pub mod Vocabularies
pub mod Facts
pub mod Bump
mod Tests
