-- ===== src/Metadata/Backup/OwnNamed.antt =====
-- The names under which the own parts of a backup are stored, and `remove_parts`.
use ch_backup.Prelude.{
  ◌≡◌, refl, inl, inr, String, Bool, true, false, List, [], ◌∷◌, Dict, lookup, AllItems,
  AllItems-lookup, AllItems-insert, AllItems-remove, Option-cases,
}
use ch_backup.Metadata.{RawPart, RawTable, RawDatabase, PartMetadata, TableMetadata, BackupMetadata}
use ch_backup.Metadata.Part.{load, is_linked, deduplicated_part_name}
use ch_backup.Metadata.Backup.{
  find_table, put_table, Removal, remove_part, remove_each, remove_parts,
}

-- A part that a backup stores itself is stored under its own name, and its names pass a test.
abbrev pub IsOwnNamed : (PartMetadata → Bool) → String → String → String → RawPart → Type 0
IsOwnNamed is_part d t n raw =
    (is_part (load d t n raw) ≡ true)
    × (is_linked (load d t n raw) ≡ false → deduplicated_part_name (load d t n raw) ≡ n)

-- So do all parts of a table, and of the backup.
abbrev pub AreOwnParts : (PartMetadata → Bool) → String → String → Dict RawPart → Type 0
AreOwnParts is_part d t = AllItems (IsOwnNamed is_part d t)

abbrev pub AreOwnTables : (PartMetadata → Bool) → String → Dict RawTable → Type 0
AreOwnTables is_part d = AllItems (λ t table. AreOwnParts is_part d t table.parts)

abbrev pub AreOwnNamed : (PartMetadata → Bool) → Dict RawDatabase → Type 0
AreOwnNamed is_part = AllItems (λ d db. AreOwnTables is_part d db.tables)

module _ (is_part : PartMetadata → Bool) where
  -- What `remove_parts` leaves as it was.
  remove_each-own :
      (d t : String) (ps : List PartMetadata) (r : Removal)
      → AreOwnParts is_part d t r.parts
      → AreOwnParts is_part d t (remove_each ps r).1.parts
  unfolding remove_each remove_part
  remove_each-own d t [] r own = own
  remove_each-own d t (p ∷ ps) r own = elim (Option-cases (lookup p.name r.parts)) [
    | inl missing ↦ rw (missing, remove_each) own
    | inr (raw, there) ↦
        rw (there, remove_each)
          (remove_each-own d t ps (remove_part p r) (AllItems-remove _ p.name r.parts own))
  ]

  pub remove_parts-own :
      (t : TableMetadata) (ps : List PartMetadata) (m : BackupMetadata)
      → AreOwnNamed is_part m.databases
      → ((remove_parts t ps m).1.name ≡ m.name)
        × AreOwnNamed is_part (remove_parts t ps m).1.databases
  unfolding remove_parts find_table put_table
  remove_parts-own t ps m own = elim (Option-cases (lookup t.database m.databases)) [
    | inl missing ↦ rw (missing, find_table, remove_parts) (refl, own)
    | inr (db, there) ↦ elim (Option-cases (lookup t.name db.tables)) [
      | inl missing ↦ rw (there, missing, find_table, remove_parts) (refl, own)
      | inr (raw, held) ↦
          let tables = AllItems-lookup _ t.database db m.databases own there in
          rw (there, held, find_table, remove_parts)
            (
              refl,
              AllItems-insert _ t.database _ m.databases own (
                  AllItems-insert _ t.name _ db.tables tables (
                    remove_each-own t.database t.name ps
                      (record { parts = raw.parts; size = m.size; real_size = m.real_size })
                      (AllItems-lookup _ t.name raw db.tables tables held))),
            )
    ]
  ]
