-- ===== src/Store.antt =====
-- internal/store: the database of cases, its transactions and its queries. PostgreSQL is a
-- parameter: whether a transaction goes through, and the ids it generates.
pub mod Database
pub mod Cases
pub mod Rows
pub mod Queries
pub mod Outcomes
pub mod Repositories
