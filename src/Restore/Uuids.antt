-- ===== src/Restore/Uuids.antt =====
-- The tables with one UUID in the metadata of a backup: `_filter_duplicate_uuid` of `TableBackup`
-- (ch_backup/logic/table.py).
pub mod Step
pub mod Kept
use ch_backup.Prelude.{
  ℕ, ◌+◌, String, Bool, true, false, not, ◌&&◌, ◌||◌, ◌==◌, Option, none, some, List, [], ◌∷◌, Dict,
  lookup, insert, if◌then◌else◌, Result, ok, err, ◌>>=◌, clickhouse_backup_error,
}
use ch_backup.Paths.{is_empty}
use ch_backup.Metadata.{TableMetadata}

-- `if not table_meta.uuid`: an empty one counts as none
unfoldable pub own_uuid : Option String → Option String
own_uuid none = none
own_uuid (some uuid) = if is_empty uuid then none else some uuid

abbrev pub has_name_of : TableMetadata → TableMetadata → Bool
has_name_of kept t = (kept.database == t.database) && (kept.name == t.name)

-- The loop, from `tables_by_uuid`: what is left of the tables, and how many are skipped.
unfoldable pub filter_each :
    Bool → Dict TableMetadata → List TableMetadata → Result (List TableMetadata × ℕ)
filter_each keep_going tables_by_uuid [] = ok ([], 0)
filter_each keep_going tables_by_uuid (t ∷ ts) = elim (own_uuid t.uuid) [
  | none ↦ filter_each keep_going tables_by_uuid ts >>= λ later. ok (t ∷ later.0, later.1)
  | some uuid ↦ elim (lookup uuid tables_by_uuid) [
    | none ↦ filter_each keep_going (insert uuid t tables_by_uuid) ts >>= λ later.
        ok (t ∷ later.0, later.1)
    | some kept ↦
        let later = filter_each keep_going tables_by_uuid ts in
        if has_name_of kept t || keep_going
        then (later >>= λ r. ok (r.0, r.1 + 1))
        else err clickhouse_backup_error
  ]
]

unfoldable pub filter_duplicate_uuid : List TableMetadata → Bool → Result (List TableMetadata × ℕ)
filter_duplicate_uuid tables_meta keep_going = filter_each keep_going [] tables_meta
