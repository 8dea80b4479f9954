-- ===== src/Lifecycle.antt =====
-- ch_backup/ch_backup.py: the life of a backup, as `ClickhouseBackup` runs it.
pub mod Exec
pub mod Services
pub mod Delete
pub mod Checks
pub mod Purge
pub mod Backup
pub mod Memory
