-- ===== src/Metadata.antt =====
-- ch_backup/backup/metadata/: what a backup says of itself. The data of the three metadata classes;
-- the children model their methods.
--
-- `_databases` is a dictionary of plain dictionaries, read from JSON or built by `add_*`. A record
-- stands for each, with an option where the code reads a key by `.get`: a missing key and a null
-- come to the same there.
pub mod PartName
pub mod Part
pub mod Table
pub mod Backup
pub mod Samples
pub mod Observer
use ch_backup.Prelude.{ℕ, String, Bool, Option, List, Dict}
use ch_backup.Prelude.Int.{ℤ}

-- The value of a key of `parts`.
pub record RawPart : Type 0 where
  pub checksum : String
  pub bytes : ℕ
  pub files : List String
  pub link : Option String
  pub link_part_name : Option String
  pub tarball : Option Bool
  pub disk_name : Option String
  pub encrypted : Option Bool

-- The value of a key of `tables`.
pub record RawTable : Type 0 where
  pub engine : String
  pub uuid : Option String
  pub parts : Dict RawPart

-- The value of a key of `databases`.
pub record RawDatabase : Type 0 where
  pub engine : Option String
  pub metadata_path : Option String
  pub uuid : Option String
  pub engine_full : Option String
  pub tables : Dict RawTable

-- `PartMetadata` with its `RawMetadata`.
pub record PartMetadata : Type 0 where
  pub database : String
  pub table : String
  pub name : String
  pub checksum : String
  pub size : ℕ
  pub files : List String
  pub tarball : Bool
  pub link : Option String
  pub link_part_name : Option String
  pub raw_disk_name : Option String
  pub encrypted : Bool

-- `TableMetadata`; `parts` is the dictionary of the backup that the table was loaded from.
pub record TableMetadata : Type 0 where
  pub database : String
  pub name : String
  pub engine : String
  pub uuid : Option String
  pub parts : Dict RawPart

pub data BackupState : Type 0 where
  created creating deleting partially_deleted failed : BackupState

-- An aware `datetime`: its instant, and the offset of its zone from UTC, in seconds.
pub record DateTime : Type 0 where
  pub instant : ℕ
  pub utc_offset : ℤ

-- `BackupMetadata`, less the fields that are only passed through. Of the end time only the instant
-- is used; Python's integers `size` and `real_size` may fall below zero.
pub record BackupMetadata : Type 0 where
  pub name : String
  pub path : String
  pub hostname : String
  pub start_time : DateTime
  pub end_time : Option ℕ
  pub size : ℤ
  pub real_size : ℤ
  pub schema_only : Bool
  pub encrypted : Bool
  pub state : BackupState
  pub exception : Option String
  pub databases : Dict RawDatabase
  pub user_defined_functions : List String
  pub named_collections : List String
  pub workload_entities : List String
