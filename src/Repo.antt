-- ===== src/Repo.antt =====
-- internal/repository: the queries on the tables, with the constraints of internal/db/migrations.
-- Rows of one table have different ids, since the id is the primary key.
pub mod Items
pub mod Users
pub mod Shares
pub mod Index
pub mod Search
pub mod Like
