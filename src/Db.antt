-- ===== src/Db.antt =====
-- The statements on the other tables (src/db).
pub mod Feeds
pub mod Articles
pub mod Runs
pub mod Rejected
pub mod Comparable
pub mod Steps
pub mod Recent
