-- ===== src/Metadata/Backup/Tests.antt =====
-- The theorems on the metadata of the sample backups.
use mathlib.Core.Option.{some-injective}
use ch_backup.Prelude.{
  Bool, ap, ◌∙◌, ok-injective, ◌≡◌, refl, none, [], ◌∷◌, lookup, insert, total, ok, ◌==◌,
}
use ch_backup.Prelude.Int.{pos, ◌+ℤ◌}
use ch_backup.Metadata.{RawTable, RawDatabase, PartMetadata, TableMetadata, BackupMetadata}
use ch_backup.Metadata.Samples.{raw_part, raw_table, raw_database, old_backup, new_backup, part_of}
use ch_backup.Metadata.PartName.{split_part_name, split, int}
use ch_backup.Metadata.Part.{
  load, to_raw, is_linked, or_none, or_else, normalize_backup_link, get_or, disk_name,
}
use ch_backup.Metadata.Table
use ch_backup.Metadata.Table.{get_parts, with_keys, load_parts, load_table}
use ch_backup.Metadata.Backup.{
  find_table, put_table, count_part, add_part, add_table, remove_parts, find_part,
}
use ch_backup.Metadata.Backup.Counting.{IsCounted, own_size}
use ch_backup.Metadata.Backup.Added.{add_part-IsCounted, add_table-IsCounted}
use ch_backup.Metadata.Backup.Removed.{AreStored, remove_parts-IsCounted}
use ch_backup.Metadata.Observer.{UploadPartObserver, observe_all}
use ch_backup.Metadata.Observer.Counted.{AreCounted, observe_all-AreCounted}
use ch_backup.Metadata.Backup.Links.{databases_with_legacy_part_links, find_part-legacy}

old-IsCounted : IsCounted old_backup
unfolding total own_size is_linked load or_none normalize_backup_link
old-IsCounted = record { all_parts = refl; own_parts = refl }

abbrev more : PartMetadata
more = record (part_of none) { name = "all_2_2_0" }

abbrev old_and_more : BackupMetadata
old_and_more = record old_backup {
  size = pos 20;
  real_size = pos 20;
  databases =
      put_table "db" "t" (raw_database none)
        (record (raw_table none) {
          parts = insert "all_2_2_0" (raw_part none) (raw_table none).parts;
        })
        old_backup.databases;
}

accepted : add_part more old_backup ≡ ok old_and_more
unfolding add_part find_table Table.add_part count_part put_table lookup insert load_table to_raw
    disk_name or_else is_linked or_none ◌+ℤ◌
accepted = refl

add_part-IsCounted_example : IsCounted old_and_more
add_part-IsCounted_example =
    add_part-IsCounted more old_backup old_and_more old-IsCounted tt accepted

abbrev other_table : TableMetadata
other_table = record {
  database = "db";
  name = "u";
  engine = "MergeTree";
  uuid = none;
  parts = (raw_table none).parts;
}

added : (add_table other_table old_backup).0 ≡ ok tt
unfolding add_table lookup get_parts load_parts with_keys split_part_name split int load
    normalize_backup_link or_none get_or
added = refl

add_table-IsCounted_example : IsCounted (add_table other_table old_backup).1
add_table-IsCounted_example = add_table-IsCounted other_table old_backup old-IsCounted added

abbrev the_table : TableMetadata
the_table = load_table "db" "t" (raw_table none)

stored :
    (db : RawDatabase) (raw : RawTable)
    → find_table "db" "t" old_backup ≡ ok (db, raw)
    → AreStored (part_of none ∷ []) raw.parts
unfolding find_table lookup load normalize_backup_link or_none get_or
stored db raw h = (
  λ raw' h'. ap (load "db" "t" "all_1_1_0") (
      some-injective (raw_part none) raw'
        (ap (λ found. lookup "all_1_1_0" found.1.parts) (ok-injective h) ∙ h')),
  tt,
)

remove_parts-IsCounted_example : IsCounted (remove_parts the_table (part_of none ∷ []) old_backup).1
unfolding load_table
remove_parts-IsCounted_example =
    remove_parts-IsCounted the_table (part_of none ∷ []) old_backup old-IsCounted stored

find_part-legacy_example :
    find_part "db" "t" "all_1_1_0"
      (record new_backup { databases = databases_with_legacy_part_links new_backup })
    ≡ find_part "db" "t" "all_1_1_0" new_backup
find_part-legacy_example = find_part-legacy "db" "t" "all_1_1_0" new_backup

abbrev is_first : PartMetadata → Bool
is_first p = p.name == "all_1_1_0"

got-parts : get_parts [] the_table ≡ ok (part_of none ∷ [])
unfolding get_parts load_parts with_keys load split_part_name split int normalize_backup_link
    or_none get_or load_table
got-parts = refl

abbrev observer : UploadPartObserver
observer = record {
  backup_meta = old_backup;
  last_time = 0;
  uploaded_parts = [];
  interval = 10;
  uploads = [];
}

observe_all-AreCounted_example : AreCounted (observe_all ((20, more) ∷ []) observer).1
observe_all-AreCounted_example =
    observe_all-AreCounted ((20, more) ∷ []) observer (tt, tt)
      (record { in_hand = old-IsCounted; uploaded = tt })
