-- ===== src/Layout/Upload.antt =====
-- The uploads of `BackupLayout`.
use Prim.Native.Char.{code}
use Prim.Native.String.{◌++◌}
use ch_backup.Prelude.{
  String, Bool, true, false, none, some, List, [], ◌∷◌, map, if◌then◌else◌, eqb, ok, err,
  assertion_error,
}
use ch_backup.Paths.{join_path, is_empty}
use ch_backup.Metadata.{BackupMetadata}
use ch_backup.Metadata.Part.{FrozenPart}
use ch_backup.Lifecycle.Exec.{Exec, pure, lift, ◌>>=◌, ◌>>◌}
use ch_backup.Layout.Names.{escape_metadata_file_name}
use ch_backup.Layout.Keys.{
  get_backup_path, backup_metadata_path, backup_light_metadata_path, access_control_data_path,
  udf_data_path, db_metadata_path_tar, table_metadata_path_tar, named_collections_data_path,
  workload_entities_data_path, part_path, disk_metadata_path, table_shadow_path,
}
use ch_backup.Layout.Backend.{Backend, Settings, Options, Bytes, or_storage_error, read}

-- `is_async`, with the encryption asked for
abbrev pub in_background : Bool → Bool → Options
in_background is_async encryption = record {
  is_async = is_async;
  encryption = encryption;
  compression = false;
  delete = false;
}

-- What an upload of create statements has gathered: `file_names`, `data_list`, and the databases.
pub record Statements : Type 0 where
  pub file_names : List String
  pub data_list : List Bytes

abbrev add_statement : String → Bytes → Statements → Statements
add_statement name bytes st = record {
  file_names = name ∷ st.file_names;
  data_list = bytes ∷ st.data_list;
}

-- `get_sanitized_name`: `self.name.replace("-", "_")`
abbrev pub sanitize : String → String
sanitize String.[] = String.[]
sanitize (String.◌∷◌ c s) = String.◌∷◌ (if eqb (code c) b'-' then "_" else c) (sanitize s)

-- `exclude_file_names` of the shadow directory
abbrev frozen_metadata : List String
frozen_metadata = "frozen_metadata.txt" ∷ []

module _ (b : Backend) (config : Settings) where
  unfoldable pub upload_backup_metadata : BackupMetadata → Exec b.State (Unit {0})
  upload_backup_metadata backup =
      let remote_path = backup_metadata_path config.path_root backup.name in
      let remote_light_path = backup_light_metadata_path config.path_root backup.name in
      or_storage_error do
        b.upload_data (b.dump_json false backup) remote_path true
        b.upload_data (b.dump_json true backup) remote_light_path false

  -- The loop of `upload_database_create_statements` over the names of the databases: the files that
  -- can be read.
  read_statements : List String → b.State → Statements
  read_statements [] s = record { file_names = []; data_list = [] }
  read_statements (name ∷ names) s =
      let local_path = join_path config.metadata_path (escape_metadata_file_name name ++ ".sql") in
      let rest = read_statements names s in
      elim (b.read_bytes local_path s) [ none ↦ rest | some bytes ↦ add_statement name bytes rest ]

  -- Returns the names of the databases that are backed up.
  pub upload_database_create_statements : BackupMetadata → List String → Exec b.State (List String)
  upload_database_create_statements backup_meta databases s =
      let found = read_statements databases s in
      let remote_path = db_metadata_path_tar (get_backup_path config.path_root backup_meta.name) in
      elim found.file_names [
        | [] ↦ pure [] s
        | _ ∷ _ ↦
            (do
              or_storage_error (
                  b.upload_data_tarball found.file_names found.data_list remote_path
                    (in_background false backup_meta.encrypted))
              pure found.file_names)
              s
      ]

  pub upload_create_statements :
      BackupMetadata → String → List (String × String) → Exec b.State (Unit {0})
  upload_create_statements backup_meta db_name [] = pure tt
  upload_create_statements backup_meta db_name (first ∷ rest) =
      let create_statements = first ∷ rest in
      let backup_path = get_backup_path config.path_root backup_meta.name in
      or_storage_error (
        b.upload_data_tarball (map (λ p. p.0) create_statements)
          (map (λ p. b.encode_text p.1) create_statements)
          (table_metadata_path_tar backup_path db_name) (in_background true backup_meta.encrypted))

  pub upload_access_control_file : String → String → Exec b.State (Unit {0})
  upload_access_control_file backup_name file_name =
      let local_path = join_path config.access_control_path file_name in
      let backup_path = get_backup_path config.path_root backup_name in
      or_storage_error
        (b.upload_file local_path (access_control_data_path backup_path file_name) true)

  pub upload_access_control_files : String → String → List String → Exec b.State (Unit {0})
  upload_access_control_files local_path backup_name file_names =
      let backup_path = get_backup_path config.path_root backup_name in
      or_storage_error (
        b.upload_files_tarball local_path
          (access_control_data_path backup_path "access_control.tar") file_names
          (in_background false true))

  pub upload_udf : String → String → String → Exec b.State (Unit {0})
  upload_udf backup_name file_name metadata =
      let backup_path = get_backup_path config.path_root backup_name in
      or_storage_error (b.upload_data metadata (udf_data_path backup_path file_name true) true)

  pub upload_data_part : BackupMetadata → FrozenPart → Exec b.State (Unit {0})
  upload_data_part backup_meta fpart =
      let backup_path = get_backup_path config.path_root backup_meta.name in
      let remote_dir_path = part_path backup_path fpart.database fpart.table fpart.name true in
      let remote_path = join_path remote_dir_path (fpart.name ++ ".tar") in
      or_storage_error (
        b.upload_files_tarball fpart.path remote_path fpart.files
          (record (in_background true backup_meta.encrypted) { delete = true }))

  pub upload_named_collections_ddl_from_file : String → String → String → Exec b.State (Unit {0})
  upload_named_collections_ddl_from_file local_path backup_name nc_name =
      let backup_path = get_backup_path config.path_root backup_name in
      or_storage_error
        (b.upload_file local_path (named_collections_data_path backup_path nc_name) true)

  pub upload_workload_entity_ddl_from_file : String → String → String → Exec b.State (Unit {0})
  upload_workload_entity_ddl_from_file local_path backup_name entity_name =
      let backup_path = get_backup_path config.path_root backup_name in
      or_storage_error
        (b.upload_file local_path (workload_entities_data_path backup_path entity_name) true)

  -- The last step of the upload below: whether the disk had data.
  upload_shadow : String → String → String → Options → Bool → Exec b.State Bool
  upload_shadow shadow_path remote_path path_on_disk options true = pure false
  upload_shadow shadow_path remote_path path_on_disk options false = do
    or_storage_error
        (b.upload_files_tarball_scan shadow_path remote_path path_on_disk frozen_metadata options)
    pure true

  -- The encryption and the compression of `cloud_storage`; the database, the name and the path on
  -- the disk of the table; the name and the path of the disk.
  pub upload_cloud_storage_metadata :
      BackupMetadata
      → (Bool × Bool)
      → (String × String × String)
      → (String × String)
      → Bool
      → Exec b.State Bool
  upload_cloud_storage_metadata backup_meta (encrypted, compressed) (database, table, path_on_disk)
        (disk_name, disk_path) delete_after_upload =
      let backup_name = sanitize backup_meta.name in
      let shadow_path = table_shadow_path disk_path backup_name path_on_disk in
      let options : Options = record {
        is_async = true;
        encryption = encrypted;
        compression = compressed;
        delete = delete_after_upload;
      } in
      do
        lift (if is_empty path_on_disk then err assertion_error else ok tt)
        remote_path ← lift (
            disk_metadata_path (get_backup_path config.path_root backup_name) (some database)
              (some table) disk_name compressed)
        empty ← read (b.dir_is_empty shadow_path frozen_metadata)
        upload_shadow shadow_path remote_path path_on_disk options empty
