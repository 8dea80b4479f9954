-- ===== src/Layout.antt =====
-- ch_backup/backup/layout.py: where a backup keeps its files in the storage, and the operations of
-- `BackupLayout` on them.
pub mod Names
pub mod Keys
pub mod Backend
pub mod Upload
pub mod Texts
pub mod Backups
pub mod Parts
pub mod Download
pub mod Cloud
pub mod Refinement
pub mod Memory
mod Tests
