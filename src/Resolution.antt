-- ===== src/Resolution.antt =====
-- internal/resolution: the issue side of autophage. A `Case` is one issue that it handles.
pub mod Enums
pub mod Vocabularies
pub mod Budget
pub mod Requester
pub mod Facts
pub mod Repository
pub mod Brief
pub mod Case
mod Tests
