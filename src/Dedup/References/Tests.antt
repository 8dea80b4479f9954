-- ===== src/Dedup/References/Tests.antt =====
-- The references of the sample backups.
use ch_backup.Prelude.{◌≡◌, refl, ◌&&◌, [], ◌∷◌, lookup, insert, keys, contains, set_add, Dict, ok}
use ch_backup.Metadata.Samples.{old_backup, new_backup}
use ch_backup.Metadata.PartName.{split_part_name, split, int}
use ch_backup.Metadata.Part.{
  load, is_linked, or_none, or_else, normalize_backup_link, deduplicated_part_name, get_or,
}
use ch_backup.Metadata.Table.{get_parts, with_keys, load_parts, load_table}
use ch_backup.Metadata.Backup.{get_tables, load_tables}
use ch_backup.Dedup.References.{
  DedupReferences, names_of, get_list, collect_dedup_references, collect_backups, collect_databases,
  collect_tables, collect_parts, add_part_to_dedup_references,
}
use ch_backup.Dedup.References.Exact.{is_referenced, is_linked_from, collect_dedup_references-exact}

abbrev references : Dict DedupReferences
references = ("old", ("db", ("t", "all_1_1_0" ∷ []) ∷ []) ∷ []) ∷ []

collected : collect_dedup_references (λ m. ok m) (new_backup ∷ []) (old_backup ∷ []) ≡ ok references
unfolding collect_dedup_references collect_backups collect_databases collect_tables collect_parts
    add_part_to_dedup_references get_tables load_tables load_table get_parts load_parts with_keys
    split_part_name split int load is_linked normalize_backup_link or_none or_else get_or
    deduplicated_part_name get_list lookup insert keys set_add
collected = refl

collect_dedup_references-exact_example : is_referenced references "old" "db" "t" "all_1_1_0" ≡ (
    contains "old" (names_of (old_backup ∷ []))
    && is_linked_from (λ m. ok m) (new_backup ∷ []) "old" "db" "t" "all_1_1_0")
collect_dedup_references-exact_example =
    collect_dedup_references-exact (λ m. ok m) (new_backup ∷ []) (old_backup ∷ []) references "old"
      "db" "t" "all_1_1_0" collected
