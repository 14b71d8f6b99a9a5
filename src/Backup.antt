-- ===== src/Backup.antt =====
-- Backups of the database directory (src/db/backup.rs, without `restore`).
pub mod Tree
pub mod Copied
pub mod Directory
pub mod Listed
pub mod Listing
