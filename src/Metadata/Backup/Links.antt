-- ===== src/Metadata/Backup/Links.antt =====
-- `_databases_with_legacy_part_links`: a dump writes the link of a part as a path, for older
-- versions.
use ch_backup.Prelude.{
  String, ◌≡◌, refl, inl, inr, Bool-cases, Option-cases, Option, none, some, Dict, lookup,
  map_values, lookup-map_values, if◌then◌else◌, arith,
}
use ch_backup.Paths.{is_empty, has_slash, dirname, join_path}
use ch_backup.Paths.Laws.{is_empty-join, basename-join, basename-plain}
use ch_backup.Metadata.{RawPart, RawTable, RawDatabase, BackupMetadata}
use ch_backup.Metadata.Part.{load, normalize_backup_link}
use ch_backup.Metadata.Backup.{find_part}

legacy_link : String → Option String → Option String
legacy_link path_root none = none
legacy_link path_root (some link) =
    if is_empty link
    then some link
    else if has_slash link
    then some link
    else some (if is_empty path_root then link else join_path path_root link)

legacy_part : String → RawPart → RawPart
legacy_part path_root part = record part { link = legacy_link path_root part.link }

legacy_table : String → RawTable → RawTable
legacy_table path_root table = record table {
  parts = map_values (legacy_part path_root) table.parts;
}

legacy_database : String → RawDatabase → RawDatabase
legacy_database path_root db = record db { tables = map_values (legacy_table path_root) db.tables }

-- `os.path.dirname(self.path) if self.path else ""` is `dirname`, since that of "" is ""
pub databases_with_legacy_part_links : BackupMetadata → Dict RawDatabase
unfolding legacy_database legacy_table
databases_with_legacy_part_links m = map_values (legacy_database (dirname m.path)) m.databases

normalize-legacy_link :
    (root : String) (link : Option String)
    → normalize_backup_link (legacy_link root link) ≡ normalize_backup_link link
unfolding normalize_backup_link legacy_link
normalize-legacy_link root none = refl
normalize-legacy_link root (some l) = elim (Bool-cases (is_empty l)) [
  | inl empty ↦ rw (empty, empty)
  | inr name ↦ elim (Bool-cases (has_slash l)) [
    | inl path ↦ rw (name, path, name)
    | inr plain ↦ elim (Bool-cases (is_empty root)) [
      | inl no_root ↦ rw (name, plain, no_root, name)
      | inr rooted ↦ rw (
        name,
        plain,
        rooted,
        basename-join root l plain name,
        basename-plain l plain,
        is_empty-join root l name,
      )
    ]
  ]
]

load-legacy_part :
    (root d t n : String) (raw : RawPart) → load d t n (legacy_part root raw) ≡ load d t n raw
unfolding load legacy_part
load-legacy_part root d t n raw = rw (normalize-legacy_link root raw.link)

-- A part that is looked up in the dumped form of a backup, with links written as paths for older
-- versions, is the part of the backup.
pub find_part-legacy :
    (d t n : String) (m : BackupMetadata)
    → find_part d t n (record m { databases = databases_with_legacy_part_links m })
      ≡ find_part d t n m
unfolding find_part databases_with_legacy_part_links
find_part-legacy d t n m = elim (Option-cases (lookup d m.databases)) [
  | inl e ↦ ground (arith, lookup-map_values (legacy_database root) d m.databases)
  | inr (db, e) ↦ elim (Option-cases (lookup t db.tables)) [
    | inl e' ↦ ground (
      arith,
      lookup-map_values (legacy_database root) d m.databases,
      lookup-map_values (legacy_table root) t db.tables,
    )
    | inr (raw, e') ↦ elim (Option-cases (lookup n raw.parts)) [
      | inl e'' ↦ ground (
        arith,
        lookup-map_values (legacy_database root) d m.databases,
        lookup-map_values (legacy_table root) t db.tables,
        lookup-map_values (legacy_part root) n raw.parts,
      )
      | inr (part, e'') ↦ ground (
        arith,
        lookup-map_values (legacy_database root) d m.databases,
        lookup-map_values (legacy_table root) t db.tables,
        lookup-map_values (legacy_part root) n raw.parts,
        load-legacy_part root d t n part,
      )
    ]
  ]
]
  where
    root : String
    root = dirname m.path
