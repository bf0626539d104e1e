-- ===== src/Database.antt =====
-- packages/database/src: the migration runner.
pub mod Migrations
