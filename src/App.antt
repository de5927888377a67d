-- ===== src/App.antt =====
-- internal/app: the services of the daemon. A service runs on the store as it is; between two of its
-- transactions no other one is modelled. Clocks and GitHub are parameters.
pub mod Calls
pub mod Scheduler
pub mod Recovery
pub mod Backstop
mod Examples
mod Tests
mod WebhookTests
