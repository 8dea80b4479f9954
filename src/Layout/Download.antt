-- ===== src/Layout/Download.antt =====
-- The create statements and the access control objects that `BackupLayout` downloads, and the cloud
-- storage metadata.
use Prim.Native.String.{◌++◌}
use ch_backup.Prelude.{
  String, true, false, Option, none, some, List, [], ◌∷◌, map, if◌then◌else◌, Result, ok, ◌>>=◌,
}
use ch_backup.Lifecycle.Exec.{Exec}
use ch_backup.Paths.{join_path}
use ch_backup.Metadata.{BackupMetadata}
use ch_backup.Layout.Names.{escape_metadata_file_name}
use ch_backup.Layout.Keys.{
  get_backup_path, access_control_data_path, udf_data_path, db_metadata_path, db_metadata_path_tar,
  table_metadata_path, table_metadata_path_tar, named_collections_data_path,
  workload_entities_data_path,
}
use ch_backup.Layout.Backend.{Backend, Settings, or_storage_error}
use ch_backup.Layout.Upload.{in_background}
use ch_backup.Layout.Parts.{get_escaped_if_exists}

-- `[f(name) for name in names]`, where `f` may raise
abbrev pub each : {A : Type 0} → (String → Result A) → List String → Result (List (String × A))
each f [] = ok []
each f (name ∷ names) = do a ← f name; rest ← each f names; ok ((name, a) ∷ rest)

module _ (b : Backend) (config : Settings) where
  abbrev path_of : BackupMetadata → String
  path_of backup_meta = get_backup_path config.path_root backup_meta.name

  pub get_udf_create_statement : BackupMetadata → String → b.State → Result String
  get_udf_create_statement backup_meta filename s = do
    remote_path ← get_escaped_if_exists b config (udf_data_path (path_of backup_meta) filename) s
    b.download_data remote_path true s

  -- The text of a file of the host whose name is escaped, unless it cannot be read.
  read_local : String → String → b.State → Result (Option String)
  read_local directory name s =
      elim (b.read_bytes (join_path directory (escape_metadata_file_name name ++ ".sql")) s) [
        | none ↦ ok none
        | some bytes ↦ b.decode_strict bytes >>= λ text. ok (some text)
      ]

  pub get_local_nc_create_statement : String → b.State → Result (Option String)
  get_local_nc_create_statement nc_name = read_local config.named_collections_path nc_name

  pub get_local_workload_entity_create_statement : String → b.State → Result (Option String)
  get_local_workload_entity_create_statement entity_name =
      read_local config.workload_path entity_name

  pub get_named_collection_create_statement : BackupMetadata → String → b.State → Result String
  get_named_collection_create_statement backup_meta filename =
      b.download_data (named_collections_data_path (path_of backup_meta) filename) true

  pub get_workload_entity_create_statement : BackupMetadata → String → b.State → Result String
  get_workload_entity_create_statement backup_meta filename =
      b.download_data (workload_entities_data_path (path_of backup_meta) filename) true

  pub get_database_create_statement : BackupMetadata → String → b.State → Result String
  get_database_create_statement backup_meta db_name =
      b.download_data (db_metadata_path (path_of backup_meta) db_name) backup_meta.encrypted

  pub get_table_create_statement : BackupMetadata → String → String → b.State → Result String
  get_table_create_statement backup_meta db_name table_name s = do
    bytes ←
        b.download_bytes (table_metadata_path (path_of backup_meta) db_name table_name)
          backup_meta.encrypted s
    ok (b.decode_text bytes)

  -- The tarball of the statements, or one file for each name in a backup that has none.
  statements :
      BackupMetadata
      → String
      → (String → b.State → Result String)
      → List String
      → b.State
      → Result (List (String × String))
  statements backup_meta remote_path one names s = b.path_exists remote_path false s >>= λ there.
      if there
      then b.download_data_tarball remote_path backup_meta.encrypted s
        >>= (λ files. ok (map (λ file. (file.0, b.decode_text file.1)) files))
      else each (λ name. one name s) names

  pub get_database_create_statements :
      BackupMetadata → List String → b.State → Result (List (String × String))
  get_database_create_statements backup_meta =
      statements backup_meta (db_metadata_path_tar (path_of backup_meta))
        (get_database_create_statement backup_meta)

  pub get_table_create_statements :
      BackupMetadata → String → List String → b.State → Result (List (String × String))
  get_table_create_statements backup_meta db_name =
      statements backup_meta (table_metadata_path_tar (path_of backup_meta) db_name)
        (get_table_create_statement backup_meta db_name)

  pub write_database_metadata : String → String → Exec b.State (Unit {0})
  write_database_metadata db_name db_sql =
      b.write_text (join_path config.metadata_path (escape_metadata_file_name db_name ++ ".sql"))
        db_sql

  pub download_access_control_file : String → String → String → Exec b.State (Unit {0})
  download_access_control_file local_path backup_name file_name =
      let backup_path = get_backup_path config.path_root backup_name in
      or_storage_error (
        b.download_file (access_control_data_path backup_path file_name)
          (join_path local_path file_name) (in_background false true))

  pub download_access_control : String → String → Exec b.State (Unit {0})
  download_access_control local_path backup_name =
      let backup_path = get_backup_path config.path_root backup_name in
      or_storage_error (
        b.download_files (access_control_data_path backup_path "access_control.tar") local_path
          (in_background false true))
