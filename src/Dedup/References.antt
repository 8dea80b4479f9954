-- ===== src/Dedup/References.antt =====
-- `collect_dedup_references_for_batch_backup_deletion`: the parts of the backups that are about to be
-- deleted that a backup which stays links to. `DedupReferences` is a `defaultdict`: a missing key
-- reads as empty. The interface to the storage is the call of `reload_backup`.
pub mod Exact
mod Tests
use ch_backup.Prelude.{
  String, Bool, true, false, ◌&&◌, ◌==◌, Option, none, some, List, [], ◌∷◌, ◌++◌, map, Dict, lookup,
  insert, contains, set_add, if◌then◌else◌, Result, ok, err, ◌>>=◌,
}
use ch_backup.Metadata.{PartMetadata, TableMetadata, BackupMetadata}
use ch_backup.Metadata.Part.{is_linked, deduplicated_part_name}
use ch_backup.Metadata.Table.{get_parts}
use ch_backup.Metadata.Backup.{get_databases, get_tables}

-- table → names
abbrev pub DatabaseDedupReferences : Type 0
DatabaseDedupReferences = Dict (List String)

-- database → table → names
abbrev pub DedupReferences : Type 0
DedupReferences = Dict DatabaseDedupReferences

-- d[k] of a `defaultdict`
unfoldable pub get_list : {A : Type 0} → String → Dict (List A) → List A
get_list k d = elim (lookup k d) [ none ↦ [] | some xs ↦ xs ]

-- `_add_part_to_dedup_references`
add_part_to_dedup_references : PartMetadata → DedupReferences → DedupReferences
add_part_to_dedup_references part refs =
    let tables = get_list part.database refs in
    let names = get_list part.table tables in
    insert part.database (insert part.table (set_add (deduplicated_part_name part) names) tables)
      refs

abbrev pub link_of : PartMetadata → String
link_of part = elim part.link [ none ↦ "" | some l ↦ l ]

-- The innermost loop, over the parts of a table.
pub collect_parts : List String → List PartMetadata → Dict DedupReferences → Dict DedupReferences
collect_parts deleting [] refs = refs
collect_parts deleting (part ∷ parts) refs = collect_parts deleting parts (
    if is_linked part && contains (link_of part) deleting
    then insert (link_of part) (add_part_to_dedup_references part (get_list (link_of part) refs))
        refs
    else refs)

collect_tables :
    List String → List TableMetadata → Dict DedupReferences → Result (Dict DedupReferences)
collect_tables deleting [] refs = ok refs
collect_tables deleting (table ∷ tables) refs = do
  parts ← get_parts [] table
  collect_tables deleting tables (collect_parts deleting parts refs)

collect_databases :
    List String
    → List String
    → BackupMetadata
    → Dict DedupReferences
    → Result (Dict DedupReferences)
collect_databases deleting [] backup refs = ok refs
collect_databases deleting (db_name ∷ db_names) backup refs = do
  tables ← get_tables db_name backup
  refs' ← collect_tables deleting tables refs
  collect_databases deleting db_names backup refs'

collect_backups :
    (BackupMetadata → Result BackupMetadata)
    → List String
    → List BackupMetadata
    → Dict DedupReferences
    → Result (Dict DedupReferences)
collect_backups reload deleting [] refs = ok refs
collect_backups reload deleting (light ∷ rest) refs = do
  backup ← reload light
  refs' ← collect_databases deleting (get_databases backup) backup refs
  collect_backups reload deleting rest refs'

abbrev pub names_of : List BackupMetadata → List String
names_of [] = []
names_of (b ∷ bs) = b.name ∷ names_of bs

pub collect_dedup_references :
    (BackupMetadata → Result BackupMetadata)
    → List BackupMetadata
    → List BackupMetadata
    → Result (Dict DedupReferences)
collect_dedup_references reload retained deleting =
    collect_backups reload (names_of deleting) retained []
