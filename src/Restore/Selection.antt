-- ===== src/Restore/Selection.antt =====
-- Which databases and tables a restore takes: the first part of `restore` of `ClickhouseBackup`
-- (ch_backup/ch_backup.py), and of `restore` of `TableBackup` (ch_backup/logic/table.py). The lists of
-- the first are what the second is given.
pub mod Taken
use ch_backup.Prelude.{
  String, Bool, true, false, not, ◌&&◌, ◌||◌, ◌==◌, Option, none, some, List, [], ◌∷◌, ◌++◌,
  contains, exists_in, keep, if◌then◌else◌, Result, ok, err, ◌>>=◌, clickhouse_backup_error,
}
use ch_backup.Metadata.{BackupMetadata, TableMetadata}
use ch_backup.Metadata.Backup.{Database, get_databases, get_database, get_tables}
use ch_backup.Restore.Filter.{PartialRestoreFilter, accept_table}

abbrev pub is_nil : {A : Type 0} → List A → Bool
is_nil [] = true
is_nil (x ∷ xs) = false

-- The required databases, or those of the backup, less the excluded ones.
unfoldable pub pick_databases : BackupMetadata → List String → List String → Result (List String)
pick_databases m [] excluded = ok (keep (λ db. not (contains db excluded)) (get_databases m))
pick_databases m (db ∷ dbs) excluded =
    if exists_in (λ name. not (contains name (get_databases m))) (db ∷ dbs)
    then err clickhouse_backup_error
    else ok (keep (λ name. not (contains name excluded)) (db ∷ dbs))

-- The tables of databases, one list after another.
unfoldable pub tables_of : BackupMetadata → List String → Result (List TableMetadata)
tables_of m [] = ok []
tables_of m (db_name ∷ db_names) = do
  tables ← get_tables db_name m
  rest ← tables_of m db_names
  ok (tables ++ rest)

module _ (fnmatch : String → String → Bool) where
  -- `tables`: those that the filter accepts, or none in particular without a filter
  unfoldable pub pick_tables :
      Option PartialRestoreFilter → BackupMetadata → List String → Result (List TableMetadata)
  pick_tables none m databases = ok []
  pick_tables (some filter) m databases = do
    all_tables ← tables_of m databases
    ok (keep (λ t. accept_table fnmatch t.database t.name filter) all_tables)

-- `(t.database, t.name) in [(table.database, table.name) for table in tables]`
abbrev pub is_among : List TableMetadata → TableMetadata → Bool
is_among tables t = exists_in (λ x. (x.database == t.database) && (x.name == t.name)) tables

-- `is_external_db_engine`
unfoldable pub is_external_db_engine : Option String → Bool
is_external_db_engine none = false
is_external_db_engine (some engine) =
    contains engine ("MySQL" ∷ "MaterializedMySQL" ∷ "PostgreSQL" ∷ "MaterializedPostgreSQL" ∷ [])

-- `get_database` of each, less those of external engines.
unfoldable pub local_databases : BackupMetadata → List String → Result (List String)
local_databases m [] = ok []
local_databases m (db_name ∷ db_names) = do
  db ← get_database db_name m
  rest ← local_databases m db_names
  ok (if is_external_db_engine db.engine then rest else db_name ∷ rest)

-- `tables_meta` of `TableBackup.restore`, as it stands before the tables are made. With none left
-- of those required the method ends there.
unfoldable pub required_tables :
    BackupMetadata → List String → List TableMetadata → Bool → Result (List TableMetadata)
required_tables m db_names tables keep_going = do
  local ← local_databases m db_names
  tables_meta ← tables_of m local
  if is_nil tables
      then ok tables_meta
      else if exists_in (λ t. not (is_among tables_meta t)) tables && not keep_going
      then err clickhouse_backup_error
      else ok (keep (is_among tables) tables_meta)
