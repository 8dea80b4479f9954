-- ===== src/Metadata/Backup.antt =====
-- `BackupMetadata` of ch_backup/backup/metadata/backup_metadata.py: the methods that read and change
-- what a backup holds. Python's aliasing is written out: the `parts` that `get_table` hands to
-- `TableMetadata.add_part`, or that `remove_parts` deletes from, are those of the backup, so a
-- method that raises half-way returns the metadata as it then stands.
pub mod Counting
pub mod Added
pub mod Removed
pub mod Links
pub mod OwnNamed
mod Tests
use ch_backup.Prelude.{
  ℕ, String, Bool, true, false, Option, none, some, List, [], ◌∷◌, ◌++◌, map, Dict, lookup, insert,
  remove, keys, if◌then◌else◌, eqb, contains, Result, ok, err, ◌>>=◌, key_error, assertion_error,
}
use ch_backup.Prelude.Int.{ℤ, pos, ◌+ℤ◌, ◌-ℤ◌}
use ch_backup.Metadata.{RawPart, RawTable, RawDatabase, PartMetadata, TableMetadata, BackupMetadata}
use ch_backup.Metadata.Part.{load, is_linked}
use ch_backup.Metadata.Table
use ch_backup.Metadata.Table.{load_table, get_parts}

-- `Database` of ch_backup/clickhouse/models.py
pub record Database : Type 0 where
  pub name : String
  pub engine : Option String
  pub metadata_path : Option String
  pub uuid : Option String
  pub engine_full : Option String

-- `get_databases`
abbrev pub get_databases : BackupMetadata → List String
get_databases m = keys m.databases

-- `get_database`
unfoldable pub get_database : String → BackupMetadata → Result Database
get_database db_name m = elim (lookup db_name m.databases) [
  | none ↦ err key_error
  | some db ↦ ok (record {
    name = db_name;
    engine = db.engine;
    metadata_path = db.metadata_path;
    uuid = db.uuid;
    engine_full = db.engine_full;
  })
]

-- `add_database`
unfoldable pub add_database : Database → BackupMetadata → Result BackupMetadata
add_database db m = elim (lookup db.name m.databases) [
  | some raw ↦ err assertion_error
  | none ↦ ok (record m {
    databases =
        insert db.name
          (record {
            engine = db.engine;
            metadata_path = db.metadata_path;
            uuid = db.uuid;
            engine_full = db.engine_full;
            tables = [];
          })
          m.databases;
  })
]

unfoldable pub load_tables : String → Dict RawTable → List TableMetadata
load_tables db_name [] = []
load_tables db_name ((name, raw) ∷ rest) = load_table db_name name raw ∷ load_tables db_name rest

-- `get_tables` of one database
unfoldable pub get_tables : String → BackupMetadata → Result (List TableMetadata)
unfolding load_tables
get_tables db_name m = elim (lookup db_name m.databases) [
  | none ↦ err key_error
  | some db ↦ ok (load_tables db_name db.tables)
]

-- `self._databases[db_name]["tables"][table_name]`
unfoldable pub find_table : String → String → BackupMetadata → Result (RawDatabase × RawTable)
find_table db_name table_name m = elim (lookup db_name m.databases) [
  | none ↦ err key_error
  | some db ↦ elim (lookup table_name db.tables) [ none ↦ err key_error | some raw ↦ ok (db, raw) ]
]

-- `get_table`
pub get_table : String → String → BackupMetadata → Result TableMetadata
unfolding find_table
get_table db_name table_name m = do
  found ← find_table db_name table_name m
  ok (load_table db_name table_name found.1)

-- a table of `_databases` in place of the old one, or as a new one
unfoldable pub put_table :
    String → String → RawDatabase → RawTable → Dict RawDatabase → Dict RawDatabase
put_table db_name table_name db raw databases =
    insert db_name (record db { tables = insert table_name raw db.tables }) databases

-- `find_part`
pub find_part : String → String → String → BackupMetadata → Option PartMetadata
unfolding find_table
find_part db_name table_name part_name m = elim (find_table db_name table_name m) [
  | err e ↦ none
  | ok found ↦ elim (lookup part_name found.1.parts) [
    | none ↦ none
    | some raw ↦ some (load db_name table_name part_name raw)
  ]
]

-- `self.size += part.size`, and `real_size` where the part is the backup's own
unfoldable pub count_part : PartMetadata → BackupMetadata → BackupMetadata
count_part part m = record m {
  size = m.size +ℤ pos part.size;
  real_size = if is_linked part then m.real_size else m.real_size +ℤ pos part.size;
}

unfoldable pub count_parts : List PartMetadata → BackupMetadata → BackupMetadata
unfolding count_part
count_parts [] m = m
count_parts (part ∷ parts) m = count_parts parts (count_part part m)

-- `add_part`
pub add_part : PartMetadata → BackupMetadata → Result BackupMetadata
add_part part m = do
  found ← find_table part.database part.table m
  table ← Table.add_part part (load_table part.database part.table found.1)
  ok (
      count_part part (record m {
        databases =
            put_table part.database part.table found.0 (record found.1 { parts = table.parts })
              m.databases;
      }))

-- `add_table`: the sizes are counted after the table is stored
pub add_table : TableMetadata → BackupMetadata → Result (Unit {0}) × BackupMetadata
add_table table m = elim (lookup table.database m.databases) [
  | none ↦ (err key_error, m)
  | some db ↦ elim (lookup table.name db.tables) [
    | some raw ↦ (err assertion_error, m)
    | none ↦
        (let stored = record m {
          databases =
              put_table table.database table.name db
                (record { engine = table.engine; uuid = table.uuid; parts = table.parts })
                m.databases;
        } in
          elim (get_parts [] table) [
            | err e ↦ (err e, stored)
            | ok parts ↦ (ok tt, count_parts parts stored)
          ])
  ]
]

-- What `remove_parts` works on.
pub record Removal : Type 0 where
  pub parts : Dict RawPart
  pub size : ℤ
  pub real_size : ℤ

remove_part : PartMetadata → Removal → Removal
remove_part part r = record {
  parts = remove part.name r.parts;
  size = r.size -ℤ pos part.size;
  real_size = if is_linked part then r.real_size else r.real_size -ℤ pos part.size;
}

-- The loop of `remove_parts`: `del` raises on a part that is not there.
remove_each : List PartMetadata → Removal → Result (Unit {0}) × Removal
unfolding remove_part
remove_each [] r = (ok tt, r)
remove_each (part ∷ parts) r =
    let rest = remove_each parts (remove_part part r) in
    elim (lookup part.name r.parts) [ none ↦ (err key_error, r) | some raw ↦ rest ]

-- `remove_parts`
pub remove_parts :
    TableMetadata → List PartMetadata → BackupMetadata → Result (Unit {0}) × BackupMetadata
remove_parts table parts m = elim (find_table table.database table.name m) [
  | err e ↦ (err e, m)
  | ok (db, raw) ↦
      (let (result, r) =
          remove_each parts
            (record { parts = raw.parts; size = m.size; real_size = m.real_size }) in
        (
          result,
          record m {
            databases =
                put_table table.database table.name db (record raw { parts = r.parts }) m.databases;
            size = r.size;
            real_size = r.real_size;
          },
        ))
]

-- `add_udf`, `add_named_collection`, `add_workload_entity`: one list each
abbrev add_name : String → List String → Result (List String)
add_name name names = if contains name names then err assertion_error else ok (names ++ (name ∷ []))

pub add_udf : String → BackupMetadata → Result BackupMetadata
add_udf name m = do
  names ← add_name name m.user_defined_functions
  ok (record m { user_defined_functions = names })

pub add_named_collection : String → BackupMetadata → Result BackupMetadata
add_named_collection name m = do
  names ← add_name name m.named_collections
  ok (record m { named_collections = names })

pub add_workload_entity : String → BackupMetadata → Result BackupMetadata
add_workload_entity name m = do
  names ← add_name name m.workload_entities
  ok (record m { workload_entities = names })

unfoldable pub parts_of_tables : List TableMetadata → Result (List PartMetadata)
parts_of_tables [] = ok []
parts_of_tables (table ∷ tables) = do
  parts ← get_parts [] table
  rest ← parts_of_tables tables
  ok (parts ++ rest)

unfoldable pub parts_of_databases : List String → BackupMetadata → Result (List PartMetadata)
parts_of_databases [] m = ok []
parts_of_databases (db_name ∷ db_names) m = do
  tables ← get_tables db_name m
  parts ← parts_of_tables tables
  rest ← parts_of_databases db_names m
  ok (parts ++ rest)

-- `BackupMetadata.get_parts`
unfoldable pub all_parts : BackupMetadata → Result (List PartMetadata)
all_parts m = parts_of_databases (get_databases m) m

-- `get_udf`, `get_named_collections`, `get_workload_entities`
abbrev pub get_udf : BackupMetadata → List String
get_udf m = m.user_defined_functions

abbrev pub get_named_collections : BackupMetadata → List String
get_named_collections m = m.named_collections

abbrev pub get_workload_entities : BackupMetadata → List String
get_workload_entities m = m.workload_entities

-- `is_empty`
pub is_empty : BackupMetadata → Bool
is_empty m = elim m.size [ pos n ↦ eqb n 0 | _ ↦ false ]
