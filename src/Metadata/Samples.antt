-- ===== src/Metadata/Samples.antt =====
-- Metadata of two backups, of which the newer links to the part of the older.
use ch_backup.Prelude.{ℕ, String, true, false, Option, none, some, [], ◌∷◌}
use ch_backup.Prelude.Int.{pos}
use ch_backup.Metadata.{RawPart, RawTable, RawDatabase, PartMetadata, BackupMetadata, created}

abbrev pub raw_part : Option String → RawPart
raw_part link = record {
  checksum = "c0ffee";
  bytes = 10;
  files = "data.bin" ∷ [];
  link = link;
  link_part_name = none;
  tarball = some true;
  disk_name = some "default";
  encrypted = some true;
}

abbrev pub raw_table : Option String → RawTable
raw_table link = record {
  engine = "MergeTree";
  uuid = none;
  parts = ("all_1_1_0", raw_part link) ∷ [];
}

abbrev pub raw_database : Option String → RawDatabase
raw_database link = record {
  engine = some "Atomic";
  metadata_path = none;
  uuid = none;
  engine_full = none;
  tables = ("t", raw_table link) ∷ [];
}

abbrev pub backup_of : String → ℕ → ℕ → Option String → BackupMetadata
backup_of name time real_size link = record {
  name = name;
  path = name;
  hostname = "host";
  start_time = record { instant = time; utc_offset = pos 0 };
  end_time = some time;
  size = pos 10;
  real_size = pos real_size;
  schema_only = false;
  encrypted = true;
  state = created;
  exception = none;
  databases = ("db", raw_database link) ∷ [];
  user_defined_functions = [];
  named_collections = [];
  workload_entities = [];
}

abbrev pub old_backup : BackupMetadata
old_backup = backup_of "old" 100 10 none

abbrev pub new_backup : BackupMetadata
new_backup = backup_of "new" 200 0 (some "old")

abbrev pub part_of : Option String → PartMetadata
part_of link = record {
  database = "db";
  table = "t";
  name = "all_1_1_0";
  checksum = "c0ffee";
  size = 10;
  files = "data.bin" ∷ [];
  tarball = true;
  link = link;
  link_part_name = none;
  raw_disk_name = some "default";
  encrypted = true;
}
