-- ===== src/Lifecycle/Services.antt =====
-- What `ClickhouseBackup` uses of its collaborators: the methods of `BackupLayout`
-- (ch_backup/backup/layout.py) over the object storage, and of `ClickhouseCTL`. The first are
-- modelled here as operations on one state; `has_data` is whether the files of a part are stored
-- under a backup, database, table and part name, with no deletion of them requested.
use ch_backup.Prelude.{
  String, Bool, true, false, ◌&&◌, ◌||◌, not, ◌==◌, ◌≡◌, List, exists_in, All, Result, ok, Error,
}
use ch_backup.Metadata.{PartMetadata, BackupMetadata}
use ch_backup.Metadata.Part.{or_else, is_linked, deduplicated_part_name}
use ch_backup.Metadata.Backup.OwnNamed.{AreOwnNamed}
use ch_backup.Lifecycle.Exec.{Exec}

-- The backup whose directory holds the files of a part: `part.link or backup_meta.name`.
unfoldable pub source_backup : BackupMetadata → PartMetadata → String
source_backup m part = or_else part.link m.name

-- The files of `part`, as `delete_data_parts` looks for them, are those of `b`, `d`, `t`, `n`.
abbrev pub is_stored_at : BackupMetadata → String → String → String → String → PartMetadata → Bool
is_stored_at m b d t n part =
    (source_backup m part == b)
    && (part.database == d)
    && (part.table == t)
    && (deduplicated_part_name part == n)

pub record Services : Type 1 where
  pub State : Type 0
  pub get_backup_names : State → Result (List String)
  -- with light metadata, newest first
  pub get_backups : State → Result (List BackupMetadata)
  pub reload_backup : State → BackupMetadata → Result BackupMetadata
  pub upload_backup_metadata : BackupMetadata → Exec State (Unit {0})
  pub delete_backup : String → Exec State (Unit {0})
  pub delete_data_parts : BackupMetadata → List PartMetadata → Exec State (Unit {0})
  pub wait : Exec State (Unit {0})
  pub system_unfreeze : String → Exec State (Unit {0})
  -- `f"{type(e).__name__}: {e}"`
  pub describe : Error → String

-- What the callers rely on: nothing but the requested files goes away. The names of a backup and of
-- a part that make paths of their own are told by two tests.
pub record IsSafe (v : Services) : Type 1 where
  pub is_name : String → Bool
  pub is_part : PartMetadata → Bool
  pub has_data : v.State → String → String → String → String → Bool
  pub upload_keeps :
      (m : BackupMetadata) (s : v.State) (b d t n : String)
      → has_data s b d t n ≡ true
      → has_data (v.upload_backup_metadata m s).1 b d t n ≡ true
  pub wait_keeps :
      (s : v.State) (b d t n : String)
      → has_data s b d t n ≡ true
      → has_data (v.wait s).1 b d t n ≡ true
  pub unfreeze_keeps :
      (name : String) (s : v.State) (b d t n : String)
      → has_data s b d t n ≡ true
      → has_data (v.system_unfreeze name s).1 b d t n ≡ true
  pub delete_backup_keeps :
      (name : String) (s : v.State) (b d t n : String)
      → is_name name ≡ true
      → (name == b) ≡ false
      → has_data s b d t n ≡ true
      → has_data (v.delete_backup name s).1 b d t n ≡ true
  pub delete_data_parts_keeps :
      (m : BackupMetadata) (parts : List PartMetadata) (s : v.State) (b d t n : String)
      → is_name m.name ≡ true
      → exists_in (λ p. is_linked p || not (is_part p)) parts ≡ false
      → exists_in (is_stored_at m b d t n) parts ≡ false
      → has_data s b d t n ≡ true
      → has_data (v.delete_data_parts m parts s).1 b d t n ≡ true
  -- The metadata of a backup bear its name, and its own parts are stored under their own names.
  pub reload_keeps :
      (light m : BackupMetadata) (s : v.State)
      → is_name light.name ≡ true
      → v.reload_backup s light ≡ ok m
      → (m.name ≡ light.name) × AreOwnNamed is_part m.databases
  -- The names of the listed backups are such names.
  pub get_backups_named :
      (s : v.State) (ms : List BackupMetadata)
      → v.get_backups s ≡ ok ms
      → All (λ m. is_name m.name ≡ true) ms
