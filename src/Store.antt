-- ===== src/Store.antt =====
-- The two stores that the processes share: the tables of db/schema.sql, and Redis as an interface.
pub mod Jobs
pub mod Redis
pub mod World
pub mod Views
pub mod Known
pub mod Rows
