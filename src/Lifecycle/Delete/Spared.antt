-- ===== src/Lifecycle/Delete/Spared.antt =====
-- The files that `_delete_data_parts` asks to delete.
use ch_backup.Prelude.{
  ◌≡◌, refl, ap, ◌∙◌, inl, inr, String, Bool, true, false, not, ◌&&◌, ◌||◌, ◌==◌, eq_iff, List, [],
  ◌∷◌, Dict, contains, exists_in, exists-keep, arith, Bool-cases, ok,
}
use ch_backup.Metadata.{RawPart, PartMetadata, TableMetadata, BackupMetadata}
use ch_backup.Metadata.Part.{or_none, or_else, load, is_linked}
use ch_backup.Metadata.Table.{load_parts, get_parts}
use ch_backup.Metadata.Table.Sort.{exists-get_parts}
use ch_backup.Metadata.Backup.OwnNamed.{IsOwnNamed, AreOwnParts}
use ch_backup.Lifecycle.Services.{source_backup, is_stored_at}
use ch_backup.Lifecycle.Delete.{own_parts}

source_backup-own :
    (m : BackupMetadata) (p : PartMetadata) → is_linked p ≡ false → source_backup m p ≡ m.name
unfolding source_backup is_linked or_none or_else
source_backup-own m p h = ground arith

module _ (is_part : PartMetadata → Bool) (m : BackupMetadata) (b d t n database name : String)
    (excluded : List String)
    (spare : (m.name == b) ≡ true
      → (database == d) ≡ true
      → (name == t) ≡ true
      → contains n excluded ≡ true) where
  abbrev is_deleted : PartMetadata → Bool
  is_deleted p = not (is_linked p) && is_stored_at m b d t n p

  not_deleted :
      (k : String) (raw : RawPart)
      → IsOwnNamed is_part database name k raw
      → contains k excluded ≡ false
      → is_deleted (load database name k raw) ≡ false
  unfolding load
  not_deleted k raw own new = elim (Bool-cases (is_linked (load database name k raw))) [
    | inl linked ↦ rw linked
    | inr stored ↦ ground (
      arith,
      stored,
      source_backup-own m (load database name k raw) stored,
      own.1 stored,
      eq_iff k n,
      ap (λ z. contains z excluded) {x = k} {y = n},
    )
  ]

  load_parts-spared :
      (parts : Dict RawPart)
      → AreOwnParts is_part database name parts
      → exists_in is_deleted (load_parts database name excluded parts) ≡ false
  unfolding load_parts
  load_parts-spared [] own = refl
  load_parts-spared ((k, raw) ∷ parts) own = elim (Bool-cases (contains k excluded)) [
    | inl there ↦ rw there (load_parts-spared parts own.1)
    | inr new ↦ rw new (rw (not_deleted k raw own.0 new) (load_parts-spared parts own.1))
  ]

load_parts-own :
    (is_part : PartMetadata → Bool) (database name : String) (excluded : List String)
    (parts : Dict RawPart)
    → AreOwnParts is_part database name parts
    → exists_in
        (λ p. not (is_linked p) && (is_linked p || not (is_part p)))
        (load_parts database name excluded parts)
      ≡ false
unfolding load_parts
load_parts-own is_part database name excluded [] own = refl
load_parts-own is_part database name excluded ((k, raw) ∷ parts) own =
    let others = load_parts-own is_part database name excluded parts own.1 in
    elim (Bool-cases (contains k excluded)) [
      | inl there ↦ rw there others
      | inr new ↦ rw new (ground (arith, own.0.0, others))
    ]

-- None of a table's own parts that `get_parts` leaves in is the part that is to be spared.
pub own_parts-spared :
    (is_part : PartMetadata → Bool) (m : BackupMetadata) (b d t n : String) (excluded : List String)
    (table : TableMetadata) (ps : List PartMetadata)
    → ((m.name == b) ≡ true
        → (table.database == d) ≡ true
        → (table.name == t) ≡ true
        → contains n excluded ≡ true)
    → AreOwnParts is_part table.database table.name table.parts
    → get_parts excluded table ≡ ok ps
    → exists_in (is_stored_at m b d t n) (own_parts ps) ≡ false
own_parts-spared is_part m b d t n excluded table ps spare own got =
    exists-keep (λ p. not (is_linked p)) (is_stored_at m b d t n) ps
    ∙ exists-get_parts excluded table ps got (λ p. not (is_linked p) && is_stored_at m b d t n p)
    ∙ load_parts-spared is_part m b d t n table.database table.name excluded spare table.parts own

-- They are parts of the backup, and pass the test of the storage.
pub own_parts-own :
    (is_part : PartMetadata → Bool) (excluded : List String) (table : TableMetadata)
    (ps : List PartMetadata)
    → AreOwnParts is_part table.database table.name table.parts
    → get_parts excluded table ≡ ok ps
    → exists_in (λ p. is_linked p || not (is_part p)) (own_parts ps) ≡ false
own_parts-own is_part excluded table ps own got =
    exists-keep (λ p. not (is_linked p)) (λ p. is_linked p || not (is_part p)) ps
    ∙ exists-get_parts excluded table ps got
        (λ p. not (is_linked p) && (is_linked p || not (is_part p)))
    ∙ load_parts-own is_part table.database table.name excluded table.parts own
