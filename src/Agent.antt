-- ===== src/Agent.antt =====
-- internal/agent: what runs a started attempt. The language model, jess, the container and GitHub
-- are parameters.
pub mod Stop
pub mod Tool
pub mod World
pub mod Attempt
pub mod Registry
mod Tests
