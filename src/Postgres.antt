-- ===== src/Postgres.antt =====
-- internal/adapters/secondary/postgres: the repositories over SQL tables.
pub mod Rows
pub mod Trail
pub mod Users
