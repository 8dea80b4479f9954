-- ===== src/Layout/Cloud.antt =====
-- The cloud storage metadata of a backup: `download_cloud_storage_metadata` and what it calls, of
-- `BackupLayout`, and `get_cloud_storage_metadata` of `ClickhouseBackup`. The encryption and the
-- compression of the backup's `cloud_storage` and the path of the disk are arguments.
pub mod Shadow
use ch_backup.Prelude.{
  String, Bool, true, false, Option, none, some, List, [], ◌∷◌, contains, if◌then◌else◌, keep,
  Result, ok, err, backup_not_found,
}
use ch_backup.Prelude as P
use ch_backup.Lifecycle.Exec.{Exec, pure, raise, lift, ◌>>=◌, ◌>>◌}
use ch_backup.Paths.{is_empty}
use ch_backup.Metadata.{BackupMetadata}
use ch_backup.Layout.Keys.{get_backup_path, join3, disk_metadata_path, is_given}
use ch_backup.Layout.Backend.{Backend, Settings, Options, or_storage_error, read}
use ch_backup.Layout.Upload.{sanitize}
use ch_backup.Layout.Backups.{get_backup}
use ch_backup.Layout.Parts.{wait}

-- What the code uses of the host beside `Backend`: `open(path, "bw")` and `os.path.exists`.
pub record Host (b : Backend) : Type 0 where
  pub open_file : String → Exec b.State (Unit {0})
  pub exists : String → b.State → Bool

-- `encryption` and `compression`
pub record CloudStorage : Type 0 where
  pub encrypted : Bool
  pub compressed : Bool

module _ (b : Backend) (config : Settings) (host : Host b) where
  -- `remote_paths`, of the databases and the names of tables
  unfoldable pub table_paths :
      String → String → Bool → List (String × String) → Result (List String)
  table_paths backup_path source_disk_name compression [] = ok []
  table_paths backup_path source_disk_name compression ((database, name) ∷ tables) =
      P.◌>>=◌
        (disk_metadata_path backup_path (some database) (some name) source_disk_name compression)
        λ path.
          P.◌>>=◌ (table_paths backup_path source_disk_name compression tables)
            λ paths. ok (path ∷ paths)

  -- `existing_paths`, or those of the desired tables
  unfoldable pub needed_paths :
      String → String → Bool → Option (List (String × String)) → List String → Result (List String)
  needed_paths backup_path source_disk_name compression none existing_paths = ok existing_paths
  needed_paths backup_path source_disk_name compression (some tables) existing_paths =
      P.◌>>=◌ (table_paths backup_path source_disk_name compression tables)
        λ remote_paths. ok (keep (λ path. contains path remote_paths) existing_paths)

  -- `_get_cloud_storage_metadata_remote_paths`; `none` for all tables. The set is listed in the
  -- order of the storage.
  unfoldable pub get_remote_paths :
      String → String → Bool → Option (List (String × String)) → b.State → Result (List String)
  get_remote_paths backup_name source_disk_name compression desired_tables s =
      let backup_path = get_backup_path config.path_root backup_name in
      P.◌>>=◌ (disk_metadata_path backup_path none none source_disk_name compression) λ old_style.
        P.◌>>=◌ (b.path_exists old_style false s) λ is_old.
          if is_old
          then ok (old_style ∷ [])
          else P.◌>>=◌ (b.list_dir (join3 backup_path "disks" source_disk_name) true true s)
              (needed_paths backup_path source_disk_name compression desired_tables)

  -- `_get_cloud_storage_metadata_dst`: the path of an opened file, or a directory that is there.
  unfoldable pub get_dst : BackupMetadata → String → Option String → Exec b.State String
  get_dst backup_meta disk_path file_path =
      let path = join3 disk_path "shadow" (sanitize backup_meta.name) in
      elim file_path [
        | none ↦ b.makedirs path >>= λ _. pure path
        | some file ↦
            if is_empty file
            then b.makedirs path >>= (λ _. pure path)
            else host.open_file file >>= (λ _. pure file)
      ]

  unfoldable pub cloud_storage_metadata_exists : BackupMetadata → String → Exec b.State Bool
  cloud_storage_metadata_exists backup_meta disk_path = do
    path ← get_dst backup_meta disk_path none
    read (λ s. ok (host.exists path s))

  unfoldable pub download_each_tarball :
      Bool → String → Options → List String → Exec b.State (Unit {0})
  download_each_tarball to_file dst options [] = pure tt
  download_each_tarball to_file dst options (remote_path ∷ remote_paths) = do
    or_storage_error (
        if to_file
        then b.download_file remote_path dst (record options { is_async = false })
        else b.download_files remote_path dst options)
    download_each_tarball to_file dst options remote_paths

  unfoldable pub download_cloud_storage_metadata :
      BackupMetadata
      → CloudStorage
      → String
      → String
      → Option (List (String × String))
      → Option String
      → Exec b.State (Unit {0})
  download_cloud_storage_metadata backup_meta cloud disk_path source_disk_name desired_tables
        file_path =
      do
        remote_paths ← read (
            get_remote_paths (sanitize backup_meta.name) source_disk_name cloud.compressed
              desired_tables)
        dst ← get_dst backup_meta disk_path file_path
        download_each_tarball (is_given file_path) dst
            (record {
              is_async = true;
              encryption = cloud.encrypted;
              compression = cloud.compressed;
              delete = false;
            })
            remote_paths

  -- `_get_backup` of `ClickhouseBackup`
  unfoldable pub find_backup : String → Bool → b.State → Result BackupMetadata
  find_backup backup_name use_light_meta s =
      P.◌>>=◌ (get_backup b config use_light_meta backup_name s)
        λ found. elim found [ none ↦ err (backup_not_found backup_name) | some backup ↦ ok backup ]

  -- `get_cloud_storage_metadata`, of a disk at `disk_path`. False if metadata is already there.
  unfoldable pub get_cloud_storage_metadata :
      (BackupMetadata → CloudStorage) → String → String → String → Option String → Exec b.State Bool
  get_cloud_storage_metadata cloud_of backup_name disk_name disk_path local_path = do
    backup_meta ← read (find_backup backup_name false)
    is_present ←
        (if is_given local_path
          then pure false
          else cloud_storage_metadata_exists backup_meta disk_path)
    fetch backup_meta is_present
    where
      fetch : BackupMetadata → Bool → Exec b.State Bool
      fetch backup_meta true = pure false
      fetch backup_meta false = do
        download_cloud_storage_metadata backup_meta (cloud_of backup_meta) disk_path disk_name none
            local_path
        wait b config false
        pure true
