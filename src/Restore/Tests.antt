-- ===== src/Restore/Tests.antt =====
-- A filter of two patterns, with a match of equal names.
use ch_backup.Prelude.{
  false, none, some, keep, lookup, insert, keys, ◌>>=◌, ◌≡◌, refl, String, Bool, true, ◌==◌,
  exists_in, List, [], ◌∷◌, ok, err, if◌then◌else◌, clickhouse_backup_error,
}
use ch_backup.Restore.Uuids.{own_uuid, filter_each, filter_duplicate_uuid}
use ch_backup.Metadata.{TableMetadata}
use ch_backup.Metadata.Table.{load_table}
use ch_backup.Metadata.Backup.{get_tables, get_database, load_tables}
use ch_backup.Metadata.Samples.{part_of, old_backup, raw_table}
use ch_backup.Restore.Selection.{
  pick_databases, pick_tables, tables_of, local_databases, is_external_db_engine, required_tables,
}
use ch_backup.Restore.Selection.Taken.{required_tables-accepted}
use ch_backup.Restore.Context.{RestoreContext, restored, part_state, change_part_state}
use ch_backup.Restore.Context.Changed.{is_same, part_state-change_part_state}
use ch_backup.Restore.Filter.{
  PartialRestoreFilter, from_pattern, takes, accept_table, accept_table-any,
}

parsed : from_pattern "db.t.x" ≡ ok (record { database = "db"; table_pattern = "t.x" })
unfolding from_pattern
parsed = refl

abbrev equal : String → String → Bool
equal name pattern = name == pattern

abbrev but_t : PartialRestoreFilter
but_t = record { inverted = true; patterns = record { database = "db"; table_pattern = "t" } ∷ [] }

accept_table-any_example :
    accept_table equal "db" "t" but_t ≡ takes equal true "db" "t" but_t.patterns
accept_table-any_example = accept_table-any equal "db" "t" but_t

abbrev fresh : RestoreContext
fresh = record {
  state_file = none;
  state_file_dump_threshold = 1;
  state_updates_cnt = 0;
  databases = [];
  failed = [];
}

part_state-change_part_state_example :
    (part_state (part_of none) (change_part_state restored (part_of (some "old")) fresh)).0 ≡ (
      if is_same (part_of (some "old")) (part_of none)
      then restored
      else (part_state (part_of none) fresh).0)
part_state-change_part_state_example =
    part_state-change_part_state restored (part_of (some "old")) (part_of none) fresh

abbrev only_x : PartialRestoreFilter
only_x = record {
  inverted = false;
  patterns = record { database = "db"; table_pattern = "x" } ∷ [];
}

abbrev table_t : TableMetadata
table_t = record {
  database = "db";
  name = "t";
  engine = "MergeTree";
  uuid = none;
  parts = (raw_table none).parts;
}

-- No table is accepted, and the one table is taken.
required_tables-accepted_example :
    (pick_tables equal (some only_x) old_backup ("db" ∷ []) >>= λ chosen.
    required_tables old_backup ("db" ∷ []) chosen false)
    ≡ ok (
        if exists_in (λ t. accept_table equal t.database t.name only_x) (table_t ∷ [])
        then keep (λ t. accept_table equal t.database t.name only_x) (table_t ∷ [])
        else table_t ∷ [])
unfolding local_databases tables_of get_tables get_database load_tables load_table lookup
    is_external_db_engine
required_tables-accepted_example =
    required_tables-accepted equal only_x old_backup ("db" ∷ []) false (table_t ∷ []) refl refl

picked : pick_databases old_backup [] ("db" ∷ []) ≡ ok []
unfolding pick_databases keys
picked = refl

abbrev with_uuid : String → TableMetadata
with_uuid name = record table_t { name = name; uuid = some "u" }

abbrev alike : List TableMetadata
alike = with_uuid "a" ∷ table_t ∷ with_uuid "b" ∷ []

one_kept : filter_duplicate_uuid alike true ≡ ok (with_uuid "a" ∷ table_t ∷ [], 1)
unfolding filter_duplicate_uuid filter_each own_uuid lookup insert
one_kept = refl

conflict : filter_duplicate_uuid alike false ≡ err clickhouse_backup_error
unfolding filter_duplicate_uuid filter_each own_uuid lookup insert
conflict = refl
