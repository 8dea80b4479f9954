-- ===== src/Dedup.antt =====
-- ch_backup/backup/deduplication.py: which parts a new backup may link to, and which parts of old
-- backups are linked to.
pub mod References
pub mod Parts
