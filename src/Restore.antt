-- ===== src/Restore.antt =====
-- What a restore takes and remembers: ch_backup/logic/partial_restore.py and
-- ch_backup/backup/restore_context.py.
pub mod Filter
pub mod Context
pub mod Selection
pub mod Uuids
mod Tests
