-- ===== src/Db.antt =====
-- internal/db: the store of sessions in Postgres.
pub mod Columns
pub mod Store
pub mod Runs
