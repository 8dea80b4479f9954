-- ===== src/Layout/Parts.antt =====
-- Data parts in the storage: `delete_backup`, `delete_data_parts`, `check_data_part` and
-- `download_data_part` of `BackupLayout`.
use Prim.Native.String.{◌++◌}
use mathlib.Core.List.{◌++◌ as ◌+++◌}
use ch_backup.Prelude.{
  ℕ, String, Bool, true, false, not, ◌&&◌, ◌==◌, eqb, List, [], ◌∷◌, map, contains, if◌then◌else◌,
  Result, ok, err, Error, s3_retrying_error,
}
use ch_backup.Prelude as P
use ch_backup.Paths.{join_path}
use ch_backup.Metadata.{BackupMetadata, PartMetadata}
use ch_backup.Metadata.Part.{or_else, deduplicated_part_name}
use ch_backup.Sizes.{calc_tarball_size, calc_encrypted_size}
use ch_backup.Lifecycle.Exec.{Exec, pure, ◌>>=◌, ◌>>◌}
use ch_backup.Layout.Keys.{get_backup_path, part_path}
use ch_backup.Layout.Backend.{Backend, Settings, or_storage_error, read}
use ch_backup.Layout.Upload.{in_background}

-- `remote_files == [name]`
abbrev pub is_only : String → List String → Bool
is_only name (file ∷ []) = file == name
is_only name _ = false

-- `not (set(files) - set(remote_files))`
abbrev pub are_all_in : List String → List String → Bool
are_all_in [] remote_files = true
are_all_in (file ∷ files) remote_files = contains file remote_files && are_all_in files remote_files

-- `except S3RetryingError`, after which the part is taken for broken
abbrev pub broken_on_retries : Result Bool → Result Bool
broken_on_retries (err s3_retrying_error) = ok false
broken_on_retries r = r

module _ (b : Backend) (config : Settings) where
  -- `_get_escaped_if_exists`, of a path by the flag `escape_names`
  unfoldable pub get_escaped_if_exists : (Bool → String) → b.State → Result String
  get_escaped_if_exists path_function s =
      P.◌>>=◌ (b.path_exists (path_function true) true s) λ there. ok (path_function there)

  -- The directory of a part's files, in the backup that stores them.
  unfoldable pub stored_path : String → PartMetadata → b.State → Result String
  stored_path backup_name part = get_escaped_if_exists (
      part_path (get_backup_path config.path_root (or_else part.link backup_name)) part.database
        part.table (deduplicated_part_name part))

  -- `_delete_files`
  unfoldable pub delete_paths : List String → Exec b.State (Unit {0})
  delete_paths remote_paths = or_storage_error (b.delete_files remote_paths)

  unfoldable pub delete_backup : String → Exec b.State (Unit {0})
  delete_backup backup_name = do
    deleting_files ← read (b.list_dir (get_backup_path config.path_root backup_name) true true)
    delete_paths deleting_files

  -- The files of a part in its directory.
  unfoldable pub part_files : String → PartMetadata → List String
  part_files path part =
      if part.tarball
      then join_path path (deduplicated_part_name part ++ ".tar") ∷ []
      else map (join_path path) part.files

  -- The loop of `delete_data_parts`: `deleting_files`.
  unfoldable pub collect_files : BackupMetadata → List PartMetadata → b.State → Result (List String)
  collect_files backup_meta [] s = ok []
  collect_files backup_meta (part ∷ parts) s =
      P.◌>>=◌ (stored_path backup_meta.name part s) λ path.
        P.◌>>=◌ (collect_files backup_meta parts s) λ rest. ok (part_files path part +++ rest)

  unfoldable pub delete_data_parts : BackupMetadata → List PartMetadata → Exec b.State (Unit {0})
  delete_data_parts backup_meta [] = pure tt
  delete_data_parts backup_meta (part ∷ parts) = do
    deleting_files ← read (collect_files backup_meta (part ∷ parts))
    delete_paths deleting_files

  -- `_target_part_size`
  pub target_part_size : PartMetadata → Bool → ℕ
  target_part_size part encrypted =
      let tar_size = calc_tarball_size part.files part.size in
      if encrypted
      then calc_encrypted_size tar_size config.encryption_chunk_size config.encryption_metadata_size
      else tar_size

  -- The answer on the names that the directory of the part has.
  unfoldable pub check_listed : PartMetadata → String → b.State → List String → Result Bool
  check_listed part remote_dir_path s remote_files =
      let tar_name = deduplicated_part_name part ++ ".tar" in
      if is_only tar_name remote_files
      then P.◌>>=◌ (b.get_file_size (join_path remote_dir_path tar_name) s)
          (λ actual_size. ok (eqb (target_part_size part part.encrypted) actual_size))
      else ok (are_all_in part.files remote_files)

  unfoldable pub check_data_part : String → PartMetadata → b.State → Result Bool
  check_data_part backup_name part s = broken_on_retries (
      P.◌>>=◌ (stored_path backup_name part s) λ remote_dir_path.
        P.◌>>=◌ (b.list_dir remote_dir_path false false s) (check_listed part remote_dir_path s))

  -- The loop over the files of a part that is not stored as a tarball.
  download_each : PartMetadata → String → String → List String → Exec b.State (Unit {0})
  download_each part fs_part_path remote_dir_path [] = pure tt
  download_each part fs_part_path remote_dir_path (filename ∷ filenames) = do
    or_storage_error (
        b.download_file (join_path remote_dir_path filename) (join_path fs_part_path filename)
          (in_background true part.encrypted))
    download_each part fs_part_path remote_dir_path filenames

  -- The download into a directory that is there.
  download_stored : PartMetadata → String → String → Exec b.State (Unit {0})
  download_stored part fs_part_path remote_dir_path =
      if part.tarball
      then or_storage_error (
          b.download_files (join_path remote_dir_path (deduplicated_part_name part ++ ".tar"))
            fs_part_path (in_background true part.encrypted))
      else download_each part fs_part_path remote_dir_path part.files

  pub download_data_part : BackupMetadata → PartMetadata → String → Exec b.State (Unit {0})
  download_data_part backup_meta part fs_part_path = do
    b.makedirs fs_part_path
    remote_dir_path ← read (stored_path backup_meta.name part)
    download_stored part fs_part_path remote_dir_path

  -- `wait`
  unfoldable pub wait : Bool → Exec b.State (Unit {0})
  wait keep_going = or_storage_error (b.wait keep_going)
