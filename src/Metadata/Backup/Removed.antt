-- ===== src/Metadata/Backup/Removed.antt =====
-- `BackupMetadata.remove_parts` and the size counters.
use ch_backup.Prelude.{
  ℕ, ◌+◌, String, ◌≡◌, refl, sym, ap, ◌∙◌, inl, inr, Bool-cases, Option-cases, some, List, [], ◌∷◌,
  Dict, lookup, remove, total, total-remove, arith, Result, ok, err,
}
use native.Mathlib.Nat.{add-zero}
use ch_backup.Prelude.Int.{pos, pos--ℤ}
use ch_backup.Metadata.{RawPart, RawTable, RawDatabase, PartMetadata, TableMetadata, BackupMetadata}
use ch_backup.Metadata.Part.{load, is_linked}
use ch_backup.Metadata.Backup.{
  find_table, put_table, Removal, remove_part, remove_each, remove_parts,
}
use ch_backup.Metadata.Backup.Counting.{
  own_size, weigh, weigh_all, any_size, IsCounted, weigh-put_table,
}

-- The parts are those that the dictionary holds under their names, or their names are not there.
abbrev pub AreStored : List PartMetadata → Dict RawPart → Type 0
AreStored [] parts = Unit
AreStored (p ∷ ps) parts =
    ((raw : RawPart) → lookup p.name parts ≡ some raw → p ≡ load p.database p.table p.name raw)
    × AreStored ps (remove p.name parts)

-- The counters of a removal, beside what the rest of the backup weighs.
pub record IsBalanced (all own : ℕ) (r : Removal) : Type 0 where
  pub all_parts : r.size ≡ pos (all + total (weigh any_size) r.parts)
  pub own_parts : r.real_size ≡ pos (own + total (weigh own_size) r.parts)

weigh_stored :
    (p : PartMetadata) (raw : RawPart)
    → p ≡ load p.database p.table p.name raw
    → (weigh any_size raw ≡ p.size) × (weigh own_size raw ≡ own_size p)
unfolding load own_size is_linked
weigh_stored p raw e = (sym (ap any_size e), sym (ap own_size e))

remove_part-IsBalanced :
    (all own : ℕ) (p : PartMetadata) (r : Removal) (raw : RawPart)
    → lookup p.name r.parts ≡ some raw
    → p ≡ load p.database p.table p.name raw
    → IsBalanced all own r
    → IsBalanced all own (remove_part p r)
unfolding remove_part own_size
remove_part-IsBalanced all own p r raw h e b = record {
  all_parts = rw (b.all_parts, left any_size all p.size weights.0, pos--ℤ);
  own_parts = elim (Bool-cases (is_linked p)) [
    | inl linked ↦
        rw linked (b.own_parts ∙ ap pos (left own_size own 0 (weights.1 ∙ rw linked) ∙ add-zero _))
    | inr stored ↦
        rw (stored, b.own_parts, left own_size own p.size (weights.1 ∙ rw stored), pos--ℤ)
  ];
}
  where
    weights : (weigh any_size raw ≡ p.size) × (weigh own_size raw ≡ own_size p)
    weights = weigh_stored p raw e

    left :
        (measure : PartMetadata → ℕ) (rest n : ℕ)
        → weigh measure raw ≡ n
        → rest + total (weigh measure) r.parts
          ≡ rest + total (weigh measure) (remove p.name r.parts) + n
    left measure rest n k =
        let t = total-remove (weigh measure) p.name r.parts in omega (arith, rw h at t)

remove_each-IsBalanced :
    (all own : ℕ) (ps : List PartMetadata) (r : Removal)
    → AreStored ps r.parts
    → IsBalanced all own r
    → IsBalanced all own (remove_each ps r).1
unfolding remove_each
remove_each-IsBalanced all own [] r s b = b
remove_each-IsBalanced all own (p ∷ ps) r s b = elim (Option-cases (lookup p.name r.parts)) [
  | inl missing ↦ rw (missing, remove_each) b
  | inr (raw, there) ↦
      rw (there, remove_each)
        (remove_each-IsBalanced all own ps (remove_part p r) s.1
          (remove_part-IsBalanced all own p r raw there (s.0 raw there) b))
]

module _ (d t : String) (m : BackupMetadata) (db : RawDatabase) (raw : RawTable)
    (found : find_table d t m ≡ ok (db, raw)) where
  there : (lookup d m.databases ≡ some db) × (lookup t db.tables ≡ some raw)
  unfolding find_table
  there = ground (arith, found)

  -- the metadata with other parts in the table
  abbrev with_parts : Removal → BackupMetadata
  with_parts r = record m {
    databases = put_table d t db (record raw { parts = r.parts }) m.databases;
    size = r.size;
    real_size = r.real_size;
  }

  -- what the backup weighs without the parts of the table
  abbrev beside : (PartMetadata → ℕ) → ℕ
  beside measure = weigh_all measure (put_table d t db (record raw { parts = [] }) m.databases)

  weigh_with :
      (measure : PartMetadata → ℕ) (parts : Dict RawPart)
      → weigh_all measure (put_table d t db (record raw { parts = parts }) m.databases)
          + total (weigh measure) raw.parts
        ≡ weigh_all measure m.databases + total (weigh measure) parts
  weigh_with measure parts =
      weigh-put_table measure d t db (record raw { parts = parts }) (some raw) m.databases there.0
        there.1

  start-IsBalanced :
      IsCounted m
      → IsBalanced
          (beside any_size)
          (beside own_size)
          (record { parts = raw.parts; size = m.size; real_size = m.real_size })
  unfolding total
  start-IsBalanced c = record {
    all_parts = c.all_parts ∙ ap pos (omega (arith, weigh_with any_size []));
    own_parts = c.own_parts ∙ ap pos (omega (arith, weigh_with own_size []));
  }

  with_parts-IsCounted :
      (r : Removal) → IsBalanced (beside any_size) (beside own_size) r → IsCounted (with_parts r)
  unfolding total
  with_parts-IsCounted r b = record {
    all_parts =
        b.all_parts ∙ ap pos (omega (arith, weigh_with any_size [], weigh_with any_size r.parts));
    own_parts =
        b.own_parts ∙ ap pos (omega (arith, weigh_with own_size [], weigh_with own_size r.parts));
  }

-- remove_parts keeps both size counters, if true before, true to the parts held, whether it returns
-- or raises, on parts that are what the table holds under their names.
pub remove_parts-IsCounted :
    (t : TableMetadata) (ps : List PartMetadata) (m : BackupMetadata)
    → IsCounted m
    → ((db : RawDatabase) (raw : RawTable)
        → find_table t.database t.name m ≡ ok (db, raw)
        → AreStored ps raw.parts)
    → IsCounted (remove_parts t ps m).1
unfolding remove_parts
remove_parts-IsCounted t ps m c stored = go (find_table t.database t.name m) refl
  where
    go :
        (o : Result (RawDatabase × RawTable))
        → find_table t.database t.name m ≡ o
        → IsCounted
            (elim o as (λ x. Result (Unit {0}) × BackupMetadata) [
              | err e ↦ (err e, m)
              | ok (db, raw) ↦
                  (let (result, r) =
                      remove_each ps
                        (record { parts = raw.parts; size = m.size; real_size = m.real_size }) in
                    (
                      result,
                      record m {
                        databases =
                            put_table t.database t.name db
                              (record raw { parts = r.parts })
                              m.databases;
                        size = r.size;
                        real_size = r.real_size;
                      },
                    ))
            ]).1
    go (err e) h = c
    go (ok (db, raw)) h =
        let start : Removal = record {
          parts = raw.parts;
          size = m.size;
          real_size = m.real_size;
        } in
        with_parts-IsCounted t.database t.name m db raw h (remove_each ps start).1 (
          remove_each-IsBalanced (beside t.database t.name m db raw h any_size)
            (beside t.database t.name m db raw h own_size) ps start (stored db raw h)
            (start-IsBalanced t.database t.name m db raw h c))
