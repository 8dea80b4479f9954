-- ===== src/Layout/Keys.antt =====
-- The paths of a backup's files: the functions at the end of ch_backup/backup/layout.py, and the
-- methods of `BackupLayout` that join a file's name to the path of a backup.
pub mod Own
use Prim.Native.String.{◌++◌}
use ch_backup.Prelude.{
  String, Bool, true, false, ◌||◌, Option, none, some, if◌then◌else◌, Result, ok, err,
  assertion_error,
}
use ch_backup.Paths.{join_path, is_empty}
use ch_backup.Layout.Names.{quote}

-- os.path.join of more than two
abbrev pub join3 : String → String → String → String
join3 a b c = join_path (join_path a b) c

abbrev pub join4 : String → String → String → String → String
join4 a b c d = join_path (join3 a b c) d

abbrev pub join5 : String → String → String → String → String → String
join5 a b c d e = join_path (join4 a b c d) e

module _ (path_root : String) where
  unfoldable pub get_backup_path : String → String
  get_backup_path backup_name = join_path path_root backup_name

  unfoldable pub backup_metadata_path : String → String
  backup_metadata_path backup_name = join_path (get_backup_path backup_name) "backup_struct.json"

  unfoldable pub backup_light_metadata_path : String → String
  backup_light_metadata_path backup_name =
      join_path (get_backup_path backup_name) "backup_light_struct.json"

pub access_control_data_path : String → String → String
access_control_data_path backup_path file_name = join3 backup_path "access_control" file_name

pub udf_data_path : String → String → Bool → String
udf_data_path backup_path udf_file escape_names =
    if escape_names
    then join3 backup_path "udf" (quote udf_file)
    else join3 backup_path "udf" udf_file

pub db_metadata_path : String → String → String
db_metadata_path backup_path db_name = join3 backup_path "metadata" (quote db_name ++ ".sql")

pub db_metadata_path_tar : String → String
db_metadata_path_tar backup_path = join3 backup_path "metadata" "databases.tar"

pub table_metadata_path : String → String → String → String
table_metadata_path backup_path db_name table_name =
    join4 backup_path "metadata" (quote db_name) (quote table_name ++ ".sql")

pub table_metadata_path_tar : String → String → String
table_metadata_path_tar backup_path db_name = join3 backup_path "metadata" (quote db_name ++ ".tar")

pub named_collections_data_path : String → String → String
named_collections_data_path backup_path nc_name =
    join3 backup_path "named_collections" (quote nc_name ++ ".sql")

pub workload_entities_data_path : String → String → String
workload_entities_data_path backup_path entity_name =
    join3 backup_path "workload_entities" (quote entity_name ++ ".sql")

unfoldable pub part_path : String → String → String → String → Bool → String
part_path backup_path db_name table_name part_name escape_names =
    if escape_names
    then join5 backup_path "data" (quote db_name) (quote table_name) part_name
    else join5 backup_path "data" db_name table_name part_name

-- `x is not None and x != ""`
abbrev pub is_given : Option String → Bool
is_given none = false
is_given (some s) = if is_empty s then false else true

abbrev pub disk_path_of : String → String → Option String → Option String → String → Result String
disk_path_of backup_path disk_name (some db_name) (some table_name) extension =
    if is_empty db_name || is_empty table_name
    then err assertion_error
    else ok (join5 backup_path "disks" disk_name (quote db_name) (quote table_name ++ extension))
disk_path_of backup_path disk_name _ _ extension = err assertion_error

pub disk_metadata_path : String → Option String → Option String → String → Bool → Result String
disk_metadata_path backup_path db_name table_name disk_name compressed =
    let extension : String = if compressed then ".tar.gz" else ".tar" in
    if is_given table_name || is_given db_name
    then disk_path_of backup_path disk_name db_name table_name extension
    else ok (join3 backup_path "disks" (disk_name ++ extension))

pub table_shadow_path : String → String → String → String
table_shadow_path disk_path backup_name table_path_on_disk =
    join4 disk_path "shadow" backup_name table_path_on_disk
