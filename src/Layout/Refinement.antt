-- ===== src/Layout/Refinement.antt =====
-- `BackupLayout` (ch_backup/backup/layout.py) as the services that the commands of
-- `ClickhouseBackup` are given.
pub mod Loads
pub mod Apart
pub mod Safety
use Prim.Native.String.{◌++◌}
use ch_backup.Prelude.{
  ◌≡◌, String, Bool, true, false, not, ◌&&◌, ◌==◌, List, exists_in, All, Result, ok, Error,
}
use ch_backup.Paths.{join_path, lstrip_slash, rstrip_slash, starts_with_slash}
use ch_backup.Paths.Segments.{is_plain}
use ch_backup.Metadata.{PartMetadata, BackupMetadata}
use ch_backup.Metadata.Part.{deduplicated_part_name}
use ch_backup.Metadata.Backup.OwnNamed.{AreOwnNamed}
use ch_backup.Lifecycle.Exec.{Exec}
use ch_backup.Lifecycle.Services.{Services}
use ch_backup.Layout.Keys.{backup_metadata_path, backup_light_metadata_path}
use ch_backup.Layout.Keys.Own.{is_table_name}
use ch_backup.Layout.Backend.{Backend, Settings}
use ch_backup.Layout.Upload.{upload_backup_metadata}
use ch_backup.Layout.Backups.{get_backup_names, get_backups, reload_backup}
use ch_backup.Layout.Parts.{delete_backup, delete_data_parts, wait}

-- The layout, beside `system_unfreeze` of `ClickhouseCTL` and the text of an exception.
abbrev pub layout_services :
    (b : Backend) → Settings → (String → Exec b.State (Unit {0})) → (Error → String) → Services
layout_services b config system_unfreeze describe = record {
  State = b.State;
  get_backup_names = get_backup_names b config;
  get_backups = get_backups b config true;
  reload_backup = reload_backup b config false;
  upload_backup_metadata = upload_backup_metadata b config;
  delete_backup = delete_backup b config;
  delete_data_parts = delete_data_parts b config;
  wait = wait b config false;
  system_unfreeze = system_unfreeze;
  describe = describe;
}

-- The file names of a part that are relative to its directory.
abbrev pub are_relative : List String → Bool
are_relative files = not (exists_in starts_with_slash files)

-- The names of a part that make segments of its path.
abbrev pub is_part_name : PartMetadata → Bool
is_part_name part =
    is_table_name part.database
    && is_table_name part.table
    && is_plain (deduplicated_part_name part)
    && are_relative part.files

-- What the storage promises, of the files that it holds with no deletion of them requested. It
-- leaves out slashes at the start of a path, and lists what is behind a directory.
pub record Storage (b : Backend) : Type 0 where
  pub holds : b.State → String → Bool
  pub upload_data_keeps :
      (text path : String) (encryption : Bool) (s : b.State) (file : String)
      → holds s file ≡ true
      → holds (b.upload_data text path encryption s).1 file ≡ true
  pub wait_keeps :
      (keep_going : Bool) (s : b.State) (file : String)
      → holds s file ≡ true
      → holds (b.wait keep_going s).1 file ≡ true
  pub delete_files_keeps :
      (paths : List String) (s : b.State) (file : String)
      → exists_in (λ path. lstrip_slash path == lstrip_slash file) paths ≡ false
      → holds s file ≡ true
      → holds (b.delete_files paths s).1 file ≡ true
  -- the entries of one directory, by their own names
  pub list_dir_names :
      (directory : String) (s : b.State) (names : List String)
      → b.list_dir directory false false s ≡ ok names
      → All (λ name. is_plain name ≡ true) names
  pub list_dir_behind :
      (directory : String) (s : b.State) (paths : List String)
      → b.list_dir directory true true s ≡ ok paths
      → All
          (λ path.
            (rest : String) × (path ≡ rstrip_slash (lstrip_slash directory) ++ ("/" ++ rest)))
          paths

-- What the documents in the storage are: metadata of the backup under whose path they stand, with
-- names that make segments of paths.
pub record OwnDocuments (b : Backend) (config : Settings) : Type 0 where
  pub full :
      (name text : String) (encryption : Bool) (m : BackupMetadata) (s : b.State)
      → is_plain name ≡ true
      → b.download_data (backup_metadata_path config.path_root name) encryption s ≡ ok text
      → b.load_json text ≡ ok m
      → (m.name ≡ name) × AreOwnNamed is_part_name m.databases
  pub light :
      (name text : String) (encryption : Bool) (m : BackupMetadata) (s : b.State)
      → is_plain name ≡ true
      → b.download_data (backup_light_metadata_path config.path_root name) encryption s ≡ ok text
      → b.load_json text ≡ ok m
      → m.name ≡ name
