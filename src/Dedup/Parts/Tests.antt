-- ===== src/Dedup/Parts/Tests.antt =====
-- Two rows of the query: a part renamed by a mutation, and another part with the same contents.
use ch_backup.Prelude.{
  ◌≡◌, refl, String, Bool, true, false, none, some, List, [], ◌∷◌, Dict, insert, AllValues, Result,
  ok,
}
use ch_backup.Metadata.{PartMetadata}
use ch_backup.Metadata.PartName.{split_part_name, split, int}
use ch_backup.Metadata.Part.{or_else, deduplicated_part_name}
use ch_backup.Dedup.Parts.{
  DedupRow, is_mutation_renamed, current_name_of, is_other_part, linked_part, is_reused, reuse,
  deduplicate_parts,
}
use ch_backup.Dedup.Parts.Sound.{
  IsBacked, deduplicated_part_name-stored, deduplicate_parts-IsBacked,
}

abbrev row : String → DedupRow
row current = record {
  name = "all_1_1_0";
  current_name = some current;
  backup_name = "old";
  checksum = "c0ffee";
  size = 10;
  files = "data.bin" ∷ [];
  tarball = true;
  disk_name = "default";
  encrypted = none;
  link_part_name = none;
  verified = true;
}

abbrev rows : List DedupRow
rows = row "all_1_1_0_2" ∷ row "all_2_2_0" ∷ []

abbrev check : String → PartMetadata → Result Bool
check backup part = ok false

abbrev reused_parts : Dict PartMetadata
reused_parts = ("all_1_1_0_2", linked_part "db" "t" (row "all_1_1_0_2")) ∷ []

reused : deduplicate_parts check "db" "t" rows ≡ ok reused_parts
unfolding deduplicate_parts reuse is_reused is_other_part is_mutation_renamed current_name_of
    or_else split_part_name split int linked_part insert
reused = refl

deduplicate_parts-IsBacked_example : AllValues (IsBacked check "db" "t" rows) reused_parts
deduplicate_parts-IsBacked_example =
    deduplicate_parts-IsBacked check "db" "t" rows reused_parts reused

deduplicated_part_name-stored_example :
    deduplicated_part_name (linked_part "db" "t" (row "all_1_1_0_2"))
    ≡ or_else (row "all_1_1_0_2").link_part_name "all_1_1_0"
deduplicated_part_name-stored_example =
    deduplicated_part_name-stored "db" "t" (row "all_1_1_0_2") refl
