-- ===== src/Metadata/Backup/Counting.antt =====
-- The size counters of a backup against the parts that it holds.
use ch_backup.Prelude.{
  ℕ, ◌+◌, String, ◌≡◌, Option, some, Dict, lookup, insert, total, weight_at, total-insert,
  if◌then◌else◌, arith,
}
use ch_backup.Prelude.Int.{pos}
use ch_backup.Metadata.{RawPart, RawTable, RawDatabase, PartMetadata, BackupMetadata}
use ch_backup.Metadata.Part.{load, is_linked}
use ch_backup.Metadata.Backup.{put_table}

-- The size of a part that the backup stores itself; a linked part is stored by another backup.
unfoldable pub own_size : PartMetadata → ℕ
own_size part = if is_linked part then 0 else part.size

-- How much a stored part counts, by a measure of parts. The names do not matter to either measure.
abbrev pub weigh : (PartMetadata → ℕ) → RawPart → ℕ
weigh measure raw = measure (load "" "" "" raw)

abbrev pub weigh_table : (PartMetadata → ℕ) → RawTable → ℕ
weigh_table measure t = total (weigh measure) t.parts

abbrev pub weigh_database : (PartMetadata → ℕ) → RawDatabase → ℕ
weigh_database measure d = total (weigh_table measure) d.tables

abbrev pub weigh_all : (PartMetadata → ℕ) → Dict RawDatabase → ℕ
weigh_all measure databases = total (weigh_database measure) databases

abbrev pub any_size : PartMetadata → ℕ
any_size part = part.size

-- `size` counts all parts of the backup, `real_size` those that it stores itself.
pub record IsCounted (m : BackupMetadata) : Type 0 where
  pub all_parts : m.size ≡ pos (weigh_all any_size m.databases)
  pub own_parts : m.real_size ≡ pos (weigh_all own_size m.databases)

-- Exchanging a table exchanges its weight.
pub weigh-put_table :
    (measure : PartMetadata → ℕ) (db_name table_name : String) (db : RawDatabase) (raw : RawTable)
    (old : Option RawTable) (databases : Dict RawDatabase)
    → lookup db_name databases ≡ some db
    → lookup table_name db.tables ≡ old
    → weigh_all measure (put_table db_name table_name db raw databases)
        + weight_at (weigh_table measure) old
      ≡ weigh_all measure databases + weigh_table measure raw
unfolding put_table
weigh-put_table measure db_name table_name db raw old databases e h =
    let there = total-insert (weigh_table measure) table_name raw db.tables in
    let outer =
      total-insert (weigh_database measure) db_name
        (record db { tables = insert table_name raw db.tables }) databases in
    omega (arith, rw h at there, rw e at outer)
