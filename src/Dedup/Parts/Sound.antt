-- ===== src/Dedup/Parts/Sound.antt =====
-- The parts that `deduplicate_parts` returns, and the rows that they come from.
use mathlib.Core.Path.{subst}
use mathlib.Core.List.{Memᴰ}
use ch_backup.Prelude.{
  ◌≡◌, refl, ap, ◌∙◌, ◌⊎◌, inl, inr, String, Bool, true, false, not, ◌==◌, eq_iff, none, some, List,
  [], ◌∷◌, Dict, insert, AllValues, AllItems-insert, arith, Bool-cases, if◌then◌else◌, Result, ok,
  >>=-eq-ok, ok-injective,
}
use ch_backup.Prelude.Int.{ℤ, pos, negsuc}
use ch_backup.Paths.{is_empty}
use ch_backup.Metadata.{PartMetadata}
use ch_backup.Metadata.Part.{or_else, or_none, deduplicated_part_name}
use ch_backup.Metadata.PartName.{PartInfo, split_part_name}
use ch_backup.Dedup.Parts.{
  DedupRow, eqb_ℤ, is_mutation_renamed, current_name_of, is_other_part, effective_link_part_name,
  linked_part, is_reused, reuse, deduplicate_parts,
}

-- The deduplicated name of a part made from a row of the query is the name that its files are
-- stored under: the one that the stored part links to itself, or its own, for a stored part with a
-- name.
pub deduplicated_part_name-stored :
    (database table : String) (row : DedupRow)
    → is_empty row.name ≡ false
    → deduplicated_part_name (linked_part database table row) ≡ or_else row.link_part_name row.name
unfolding deduplicated_part_name linked_part effective_link_part_name current_name_of or_else
    or_none
deduplicated_part_name-stored database table row named =
    ground (arith, named, eq_iff (or_else row.current_name row.name) row.name)

-- Two names of parts that are read, of one partition, one range of blocks and one level.
pub record DifferInMutation (current_name name : String) : Type 0 where
  pub current : PartInfo
  pub stored : PartInfo
  pub current_read : split_part_name current_name ≡ ok current
  pub stored_read : split_part_name name ≡ ok stored
  pub same_partition : current.partition_id ≡ stored.partition_id
  pub same_min_block : current.min_block_num ≡ stored.min_block_num
  pub same_max_block : current.max_block_num ≡ stored.max_block_num
  pub same_level : current.level ≡ stored.level

eqb_ℤ→eq : (a b : ℤ) → eqb_ℤ a b ≡ true → a ≡ b
eqb_ℤ→eq (pos a) (pos b) h = ap pos (ground (arith, h))
eqb_ℤ→eq (pos a) (negsuc b) h = absurd (ground (arith, h))
eqb_ℤ→eq (negsuc a) (pos b) h = absurd (ground (arith, h))
eqb_ℤ→eq (negsuc a) (negsuc b) h = ap negsuc (ground (arith, h))

is_mutation_renamed-DifferInMutation :
    (current_name name : String)
    → is_mutation_renamed current_name name ≡ ok true
    → DifferInMutation current_name name
unfolding is_mutation_renamed
is_mutation_renamed-DifferInMutation current_name name h =
    let (current, read, k) = >>=-eq-ok (split_part_name current_name) _ h in
    let (stored, read', l) = >>=-eq-ok (split_part_name name) _ k in
    let same = ok-injective l in
    record {
      current = current;
      stored = stored;
      current_read = read;
      stored_read = read';
      same_partition = (eq_iff current.partition_id stored.partition_id).0 (ground (arith, same));
      same_min_block = eqb_ℤ→eq current.min_block_num stored.min_block_num (ground (arith, same));
      same_max_block = eqb_ℤ→eq current.max_block_num stored.max_block_num (ground (arith, same));
      same_level = eqb_ℤ→eq current.level stored.level (ground (arith, same));
    }

module _ (check_data_part : String → PartMetadata → Result Bool) (database table : String) where
  -- What a row says of a part that is reused for it: the part is the frozen one, by its name, and
  -- it is linked to the backup of the row.
  pub record IsBacked (rows : List DedupRow) (part : PartMetadata) : Type 0 where
    pub row : DedupRow
    pub listed : Memᴰ row rows
    pub of_table : (part.database ≡ database) × (part.table ≡ table)
    pub named : part.name ≡ or_else row.current_name row.name
    pub same_contents :
        (part.checksum ≡ row.checksum)
        × (part.size ≡ row.size)
        × (part.files ≡ row.files)
        × (part.tarball ≡ row.tarball)
    pub linked : part.link ≡ (if is_empty row.backup_name then none else some row.backup_name)
    pub same_part : (part.name ≡ row.name) ⊎ DifferInMutation part.name row.name
    pub valid : (row.verified ≡ true) ⊎ (check_data_part row.backup_name part ≡ ok true)

  is_other_part-same :
      (row : DedupRow)
      → is_other_part row ≡ ok false
      → (current_name_of row ≡ row.name) ⊎ DifferInMutation (current_name_of row) row.name
  unfolding is_other_part
  is_other_part-same row h = elim (Bool-cases (current_name_of row == row.name)) [
    | inl same ↦ inl ((eq_iff (current_name_of row) row.name).0 same)
    | inr differs ↦
        (let (renamed, e, k) =
            >>=-eq-ok (is_mutation_renamed (current_name_of row) row.name) (λ r. ok (not r))
              (rw (differs, is_other_part) at h) in
          inr (
            is_mutation_renamed-DifferInMutation (current_name_of row) row.name
              (ground (arith, e, ok-injective k))))
  ]

  is_reused-IsBacked :
      (row : DedupRow) (rows : List DedupRow)
      → Memᴰ row rows
      → is_reused check_data_part database table row ≡ ok true
      → IsBacked rows (linked_part database table row)
  unfolding is_reused linked_part current_name_of effective_link_part_name or_none or_else
  is_reused-IsBacked row rows m h =
      let (other, e, k) = >>=-eq-ok (is_other_part row) _ h in
      elim (Bool-cases other) [
        | inl different ↦ absurd (cc (rw different at k))
        | inr same ↦ record {
          row = row;
          listed = m;
          of_table = (refl, refl);
          named = refl;
          same_contents = (refl, refl, refl, refl);
          linked = refl;
          same_part = is_other_part-same row (e ∙ ap ok same);
          valid = elim (Bool-cases row.verified) [
            | inl verified ↦ inl verified
            | inr checked ↦ inr (rw (same, checked) at k)
          ];
        }
      ]

  reuse-IsBacked :
      (all rows : List DedupRow) (parts result : Dict PartMetadata)
      → ((row : DedupRow) → Memᴰ row rows → Memᴰ row all)
      → AllValues (IsBacked all) parts
      → reuse check_data_part database table rows parts ≡ ok result
      → AllValues (IsBacked all) result
  unfolding reuse
  reuse-IsBacked all [] parts result sub backed h =
      subst (AllValues (IsBacked all)) (ok-injective h) backed
  reuse-IsBacked all (row ∷ rows) parts result sub backed h =
      let part = linked_part database table row in
      let (reused, e, k) =
        >>=-eq-ok (is_reused check_data_part database table row)
          (λ r.
            reuse check_data_part database table rows
              (if r then insert part.name part parts else parts))
          h in
      elim (Bool-cases reused) [
        | inl taken ↦
            reuse-IsBacked all rows (insert part.name part parts) result
              (λ r m. sub r (Memᴰ.tail m))
              (AllItems-insert (λ _. IsBacked all) part.name part parts backed
                (is_reused-IsBacked row all (sub row (Memᴰ.head refl)) (e ∙ ap ok taken)))
              (rw taken at k)
        | inr skipped ↦
            reuse-IsBacked all rows parts result (λ r m. sub r (Memᴰ.tail m)) backed
              (rw skipped at k)
      ]

  -- Every part that deduplicate_parts returns, where it succeeds, is made from a row of the query:
  -- it has the name of the frozen part, or that of the row where this names none, with the contents
  -- and the table, and is linked to the backup of the row; the stored part has that name, or both
  -- names are read with one partition, one range of blocks and one level; and it is verified or
  -- passes the check of the storage.
  pub deduplicate_parts-IsBacked :
      (rows : List DedupRow) (result : Dict PartMetadata)
      → deduplicate_parts check_data_part database table rows ≡ ok result
      → AllValues (IsBacked rows) result
  unfolding deduplicate_parts
  deduplicate_parts-IsBacked rows result h = reuse-IsBacked rows rows [] result (λ r m. m) tt h
