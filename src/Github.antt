-- ===== src/Github.antt =====
-- internal/github: what autophage reads from GitHub. go-github's client is a parameter.
pub mod Rollup
pub mod Events
pub mod Issues
pub mod Translator
mod Tests
