-- ===== src/Dedup/Parts.antt =====
-- `deduplicate_parts`: which frozen parts become links to stored ones. The rows that the query of
-- `get_deduplication_info` finds, and `check_data_part` of the layout, are parameters.
pub mod Sound
mod Tests
use ch_backup.Prelude.{
  ℕ, ◌+◌, String, Bool, true, false, not, ◌&&◌, ◌==◌, eqb, Option, none, some, List, [], ◌∷◌, Dict,
  insert, if◌then◌else◌, Result, ok, err, ◌>>=◌,
}
use ch_backup.Prelude.Int.{ℤ, pos_part, neg_part}
use ch_backup.Metadata.{PartMetadata}
use ch_backup.Metadata.PartName.{PartInfo, split_part_name}
use ch_backup.Metadata.Part.{or_else, or_none, get_or}

-- A row of the query: the stored part `name` with the checksum of the frozen part `current_name`.
pub record DedupRow : Type 0 where
  pub name : String
  pub current_name : Option String
  pub backup_name : String
  pub checksum : String
  pub size : ℕ
  pub files : List String
  pub tarball : Bool
  pub disk_name : String
  pub encrypted : Option Bool
  pub link_part_name : Option String
  pub verified : Bool

abbrev pub eqb_ℤ : ℤ → ℤ → Bool
eqb_ℤ a b = eqb (pos_part a + neg_part b) (pos_part b + neg_part a)

-- `_is_mutation_renamed`
pub is_mutation_renamed : String → String → Result Bool
is_mutation_renamed current_name dedup_part_name = do
  current ← split_part_name current_name
  dedup_part ← split_part_name dedup_part_name
  ok (
      (current.partition_id == dedup_part.partition_id)
      && eqb_ℤ current.min_block_num dedup_part.min_block_num
      && eqb_ℤ current.max_block_num dedup_part.max_block_num
      && eqb_ℤ current.level dedup_part.level)

-- `existing_part.get("current_name") or existing_part["name"]`
unfoldable pub current_name_of : DedupRow → String
unfolding or_else
current_name_of row = or_else row.current_name row.name

-- The first test of the loop; equal names are not parsed.
pub is_other_part : DedupRow → Result Bool
is_other_part row =
    if current_name_of row == row.name
    then ok false
    else do renamed ← is_mutation_renamed (current_name_of row) row.name; ok (not renamed)

unfoldable pub effective_link_part_name : DedupRow → Option String
unfolding or_none
effective_link_part_name row = elim (or_none row.link_part_name) [
  | some stored ↦ some stored
  | none ↦ if current_name_of row == row.name then none else some row.name
]

unfoldable pub linked_part : String → String → DedupRow → PartMetadata
unfolding or_none get_or
linked_part database table row = record {
  database = database;
  table = table;
  name = current_name_of row;
  checksum = row.checksum;
  size = row.size;
  files = row.files;
  tarball = row.tarball;
  link = or_none (some row.backup_name);
  link_part_name = effective_link_part_name row;
  raw_disk_name = some row.disk_name;
  encrypted = get_or row.encrypted true;
}

module _ (check_data_part : String → PartMetadata → Result Bool) (database table : String) where
  -- Whether the loop keeps the row.
  pub is_reused : DedupRow → Result Bool
  is_reused row = do
    other ← is_other_part row
    if other
        then ok false
        else if row.verified
        then ok true
        else check_data_part row.backup_name (linked_part database table row)

  reuse : List DedupRow → Dict PartMetadata → Result (Dict PartMetadata)
  reuse [] parts = ok parts
  reuse (row ∷ rows) parts = do
    reused ← is_reused row
    let part = linked_part database table row
    reuse rows (if reused then insert part.name part parts else parts)

  pub deduplicate_parts : List DedupRow → Result (Dict PartMetadata)
  deduplicate_parts rows = reuse rows []
