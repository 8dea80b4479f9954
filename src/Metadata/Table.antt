-- ===== src/Metadata/Table.antt =====
-- `TableMetadata` of ch_backup/backup/metadata/table_metadata.py.
pub mod Sort
use ch_backup.Prelude.{
  String, Bool, true, false, not, ◌&&◌, ◌==◌, Option, none, some, List, [], ◌∷◌, Dict, lookup,
  insert, contains, if◌then◌else◌, Result, ok, err, ◌>>=◌, ◌>>◌, assertion_error,
}
use ch_backup.Metadata.{RawPart, RawTable, PartMetadata, TableMetadata}
use ch_backup.Metadata.PartName.{PartInfo, split_part_name, lt_info}
use ch_backup.Metadata.Part.{load, to_raw}

abbrev pub Keyed : Type 0
Keyed = List (PartInfo × PartMetadata)

-- The key of each part for `list.sort`, the first bad name raising.
unfoldable pub with_keys : List PartMetadata → Result Keyed
with_keys [] = ok []
with_keys (part ∷ parts) = do
  info ← split_part_name part.name
  rest ← with_keys parts
  ok ((info, part) ∷ rest)

-- `list.sort` is stable: a part stays before the later parts that are not less.
insert_sorted : PartInfo → PartMetadata → Keyed → Keyed
insert_sorted info part [] = (info, part) ∷ []
insert_sorted info part ((i, p) ∷ rest) =
    let further = insert_sorted info part rest in
    if lt_info i info then (i, p) ∷ further else (info, part) ∷ (i, p) ∷ rest

sort : Keyed → Keyed
unfolding insert_sorted
sort [] = []
sort ((info, part) ∷ rest) = insert_sorted info part (sort rest)

strip : Keyed → List PartMetadata
strip [] = []
strip ((info, part) ∷ rest) = part ∷ strip rest

-- The loop of `get_parts`.
unfoldable pub load_parts : String → String → List String → Dict RawPart → List PartMetadata
load_parts db_name table_name excluded [] = []
load_parts db_name table_name excluded ((part_name, raw) ∷ rest) =
    let others = load_parts db_name table_name excluded rest in
    if contains part_name excluded then others else load db_name table_name part_name raw ∷ others

-- `get_parts`, with no excluded parts for `None`
unfoldable pub get_parts : List String → TableMetadata → Result (List PartMetadata)
unfolding sort strip
get_parts excluded table = do
  keyed ← with_keys (load_parts table.database table.name excluded table.parts)
  ok (strip (sort keyed))

-- `add_part`
unfoldable pub add_part : PartMetadata → TableMetadata → Result TableMetadata
add_part part table =
    if part.database == table.database && part.table == table.name
    then elim (lookup part.name table.parts) [
      | some raw ↦ err assertion_error
      | none ↦ ok (record table { parts = insert part.name (to_raw part) table.parts })
    ]
    else err assertion_error

-- `TableMetadata.load`
unfoldable pub load_table : String → String → RawTable → TableMetadata
load_table database name raw = record {
  database = database;
  name = name;
  engine = raw.engine;
  uuid = raw.uuid;
  parts = raw.parts;
}
