-- ===== src/Metadata/Backup/Added.antt =====
-- `BackupMetadata.add_part` and `add_table`, and the size counters.
use ch_backup.Prelude.{
  ℕ, ◌+◌, String, ◌≡◌, refl, sym, ap, ◌∙◌, inl, inr, Bool-cases, none, some, List, [], ◌∷◌, Dict,
  lookup, insert, total, total-insert, arith, ok, ◌>>=◌, >>=-eq-ok,
}
use mathlib.Core.Path.{subst}
use native.Mathlib.Nat.{add-zero}
use ch_backup.Prelude.Int.{pos, pos-+ℤ}
use ch_backup.Metadata.{RawPart, RawTable, RawDatabase, PartMetadata, TableMetadata, BackupMetadata}
use ch_backup.Metadata.Part.{load, to_raw, is_linked}
use ch_backup.Metadata.Part.RoundTrip.{IsPlain, normalize_plain}
use ch_backup.Metadata.Table
use ch_backup.Metadata.Table.{load_table, get_parts, load_parts}
use ch_backup.Metadata.Table.Sort.{sum_by, sum-get_parts}
use ch_backup.Metadata.Backup.{find_table, put_table, count_part, count_parts, add_part, add_table}
use ch_backup.Metadata.Backup.Counting.{
  own_size, weigh, weigh_all, any_size, IsCounted, weigh-put_table,
}

-- What a call of `add_part` that does not raise has found and done.
pub record AddedTo (part : PartMetadata) (m m' : BackupMetadata) : Type 0 where
  pub db : RawDatabase
  pub raw : RawTable
  pub db_there : lookup part.database m.databases ≡ some db
  pub table_there : lookup part.table db.tables ≡ some raw
  pub name_new : lookup part.name raw.parts ≡ none
  pub done :
      m'
      ≡ count_part part (record m {
        databases =
            put_table part.database part.table db
              (record raw { parts = insert part.name (to_raw part) raw.parts })
              m.databases;
      })

table_found :
    (d t : String) (m : BackupMetadata) (db : RawDatabase) (raw : RawTable)
    → find_table d t m ≡ ok (db, raw)
    → (lookup d m.databases ≡ some db) × (lookup t db.tables ≡ some raw)
unfolding find_table
table_found d t m db raw h = ground arith

part_added :
    (part : PartMetadata) (t t' : TableMetadata)
    → Table.add_part part t ≡ ok t'
    → (lookup part.name t.parts ≡ none) × (t'.parts ≡ insert part.name (to_raw part) t.parts)
unfolding Table.add_part
part_added part t t' h = ground arith

pub add_part-AddedTo :
    (part : PartMetadata) (m m' : BackupMetadata) → add_part part m ≡ ok m' → AddedTo part m m'
unfolding add_part load_table
add_part-AddedTo part m m' h =
    let (found, e, h') =
      >>=-eq-ok (find_table part.database part.table m)
        (λ f. Table.add_part part (load_table part.database part.table f.1) >>= λ t. ok (
          count_part part (record m {
            databases =
                put_table part.database part.table f.0 (record f.1 { parts = t.parts }) m.databases;
          })))
        h in
    let (t, e', h'') =
      >>=-eq-ok (Table.add_part part (load_table part.database part.table found.1))
        (λ t. ok (
          count_part part (record m {
            databases =
                put_table part.database part.table found.0 (record found.1 { parts = t.parts })
                  m.databases;
          })))
        h' in
    let there = table_found part.database part.table m found.0 found.1 e in
    let new = part_added part (load_table part.database part.table found.1) t e' in
    record {
      db = found.0;
      raw = found.1;
      db_there = there.0;
      table_there = there.1;
      name_new = new.0;
      done = rw (← new.1) (ground (arith, h''));
    }

-- The measures of a stored part with a plain link are those of the part.
weigh-to_raw :
    (part : PartMetadata)
    → IsPlain part.link
    → (weigh any_size (to_raw part) ≡ part.size) × (weigh own_size (to_raw part) ≡ own_size part)
unfolding to_raw load own_size is_linked
weigh-to_raw part h = ground (arith, normalize_plain part.link h)

-- A new part of a table adds its measure.
weigh_inserted :
    (measure : PartMetadata → ℕ) (part : PartMetadata) (m : BackupMetadata) (db : RawDatabase)
    (raw : RawTable)
    → lookup part.database m.databases ≡ some db
    → lookup part.table db.tables ≡ some raw
    → lookup part.name raw.parts ≡ none
    → weigh_all measure (
        put_table part.database part.table db
          (record raw { parts = insert part.name (to_raw part) raw.parts })
          m.databases)
      ≡ weigh_all measure m.databases + weigh measure (to_raw part)
weigh_inserted measure part m db raw e h new =
    let whole =
      weigh-put_table measure part.database part.table db
        (record raw { parts = insert part.name (to_raw part) raw.parts }) (some raw) m.databases e
        h in
    let inner = total-insert (weigh measure) part.name (to_raw part) raw.parts in
    omega (arith, whole, rw new at inner)

-- Counting a part whose measure the stored parts have gained.
pub count_part-IsCounted :
    (part : PartMetadata) (all own : ℕ) (m : BackupMetadata)
    → m.size ≡ pos all
    → m.real_size ≡ pos own
    → ((count_part part m).size ≡ pos (all + part.size))
      × ((count_part part m).real_size ≡ pos (own + own_size part))
unfolding count_part own_size
count_part-IsCounted part all own m e h = (
  rw (e, pos-+ℤ),
  elim (Bool-cases (is_linked part)) [
    | inl linked ↦ rw (linked, h, add-zero)
    | inr stored ↦ rw (stored, h, pos-+ℤ)
  ],
)

databases-count_part :
    (part : PartMetadata) (m : BackupMetadata) → (count_part part m).databases ≡ m.databases
unfolding count_part
databases-count_part part m = refl

-- A part with a plain link that add_part accepts keeps both size counters, if true before, true to
-- the parts held.
pub add_part-IsCounted :
    (part : PartMetadata) (m m' : BackupMetadata)
    → IsCounted m
    → IsPlain part.link
    → add_part part m ≡ ok m'
    → IsCounted m'
add_part-IsCounted part m m' c plain h =
    let a = add_part-AddedTo part m m' h in
    let stored : BackupMetadata = record m {
      databases =
          put_table part.database part.table a.db
            (record a.raw { parts = insert part.name (to_raw part) a.raw.parts }) m.databases;
    } in
    let counted =
      count_part-IsCounted part (weigh_all any_size m.databases) (weigh_all own_size m.databases)
        stored c.all_parts c.own_parts in
    let weights = weigh-to_raw part plain in
    subst IsCounted (sym a.done) (record {
      all_parts =
          counted.0
          ∙ ap pos (
              rw (databases-count_part part stored) (
                sym (
                  weigh_inserted any_size part m a.db a.raw a.db_there a.table_there a.name_new
                  ∙ ap (λ n. weigh_all any_size m.databases + n) weights.0)));
      own_parts =
          counted.1
          ∙ ap pos (
              rw (databases-count_part part stored) (
                sym (
                  weigh_inserted own_size part m a.db a.raw a.db_there a.table_there a.name_new
                  ∙ ap (λ n. weigh_all own_size m.databases + n) weights.1)));
    })

-- The parts of a table weigh what `get_parts` returns of it.
sum-load_parts :
    (measure : PartMetadata → ℕ)
    → ((d t n : String) (raw : RawPart) → measure (load d t n raw) ≡ weigh measure raw)
    → (d t : String) (parts : Dict RawPart)
    → sum_by measure (load_parts d t [] parts) ≡ total (weigh measure) parts
unfolding load_parts sum_by total
sum-load_parts measure same d t [] = refl
sum-load_parts measure same d t ((n, raw) ∷ parts) =
    omega (arith, same d t n raw, sum-load_parts measure same d t parts)

own_size_anywhere :
    (d t n : String) (raw : RawPart) → own_size (load d t n raw) ≡ weigh own_size raw
unfolding own_size is_linked load
own_size_anywhere d t n raw = refl

any_size_anywhere :
    (d t n : String) (raw : RawPart) → any_size (load d t n raw) ≡ weigh any_size raw
unfolding load
any_size_anywhere d t n raw = refl

count_parts-IsCounted :
    (parts : List PartMetadata) (all own : ℕ) (m : BackupMetadata)
    → m.size ≡ pos all
    → m.real_size ≡ pos own
    → ((count_parts parts m).size ≡ pos (all + sum_by any_size parts))
      × ((count_parts parts m).real_size ≡ pos (own + sum_by own_size parts))
      × ((count_parts parts m).databases ≡ m.databases)
unfolding count_parts sum_by
count_parts-IsCounted [] all own m e h = (rw (add-zero, e), rw (add-zero, h), refl)
count_parts-IsCounted (p ∷ ps) all own m e h =
    let (e', h') = count_part-IsCounted p all own m e h in
    let (s, r, d) =
      count_parts-IsCounted ps (all + p.size) (own + own_size p) (count_part p m) e' h' in
    (rw s (ap pos (omega arith)), rw r (ap pos (omega arith)), d ∙ databases-count_part p m)

-- The metadata with the table stored and not yet counted.
abbrev with_table : TableMetadata → RawDatabase → BackupMetadata → BackupMetadata
with_table t db m = record m {
  databases =
      put_table t.database t.name db (record { engine = t.engine; uuid = t.uuid; parts = t.parts })
        m.databases;
}

table_added :
    (t : TableMetadata) (m : BackupMetadata)
    → (add_table t m).0 ≡ ok tt
    → (db : RawDatabase) × (ps : List PartMetadata) × (lookup t.database m.databases ≡ some db)
      × (lookup t.name db.tables ≡ none)
      × (get_parts [] t ≡ ok ps)
      × ((add_table t m).1 ≡ count_parts ps (with_table t db m))
unfolding add_table
table_added t m h = ground arith

module _ (t : TableMetadata) (m : BackupMetadata) (db : RawDatabase) (ps : List PartMetadata)
    (found : lookup t.database m.databases ≡ some db) (new : lookup t.name db.tables ≡ none)
    (got : get_parts [] t ≡ ok ps) where
  weigh_new_table :
      (measure : PartMetadata → ℕ)
      → ((d u n : String) (raw : RawPart) → measure (load d u n raw) ≡ weigh measure raw)
      → weigh_all measure (with_table t db m).databases
        ≡ weigh_all measure m.databases + sum_by measure ps
  weigh_new_table measure same =
      let raw : RawTable = record { engine = t.engine; uuid = t.uuid; parts = t.parts } in
      let whole = weigh-put_table measure t.database t.name db raw none m.databases found new in
      let parts = sum-get_parts [] t ps got measure in
      let loaded = sum-load_parts measure same t.database t.name t.parts in
      omega (arith, whole, parts, loaded)

  new_table-IsCounted : IsCounted m → IsCounted (count_parts ps (with_table t db m))
  new_table-IsCounted c =
      let (s, r, d) =
        count_parts-IsCounted ps (weigh_all any_size m.databases) (weigh_all own_size m.databases)
          (with_table t db m) c.all_parts c.own_parts in
      record {
        all_parts = rw (s, d) (ap pos (sym (weigh_new_table any_size any_size_anywhere)));
        own_parts = rw (r, d) (ap pos (sym (weigh_new_table own_size own_size_anywhere)));
      }

-- A table that add_table accepts keeps both size counters, if true before, true to the parts held.
pub add_table-IsCounted :
    (t : TableMetadata) (m : BackupMetadata)
    → IsCounted m
    → (add_table t m).0 ≡ ok tt
    → IsCounted (add_table t m).1
add_table-IsCounted t m c h =
    let (db, ps, found, new, got, done) = table_added t m h in
    subst IsCounted (sym done) (new_table-IsCounted t m db ps found new got c)
