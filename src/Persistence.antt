-- ===== src/Persistence.antt =====
-- packages/persistence: the processing states, the tables of the database and the repositories.
pub mod Enums
pub mod Table
pub mod Session
pub mod Repositories
pub mod Records
pub mod Life
pub mod Bridge
