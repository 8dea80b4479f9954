-- ===== src/Restore/Selection/Taken.antt =====
-- The tables of a restore with a filter.
use ch_backup.Prelude.{
  ◌≡◌, refl, ap, ap₂, ◌∙◌, inl, inr, String, Bool, true, false, not, ◌&&◌, ◌==◌, eq_iff, eq_refl,
  some, List, [], ◌∷◌, exists_in, exists-keep, exists_in_none, keep, All, All-imp, if◌then◌else◌,
  Bool-cases, arith, ok, ◌>>=◌,
}
use ch_backup.Metadata.{BackupMetadata, TableMetadata}
use ch_backup.Restore.Filter.{PartialRestoreFilter, accept_table}
use ch_backup.Restore.Selection.{
  is_nil, tables_of, pick_tables, is_among, local_databases, required_tables,
}

abbrev is_same : TableMetadata → TableMetadata → Bool
is_same t x = (x.database == t.database) && (x.name == t.name)

all_among : (xs : List TableMetadata) → All (λ t. is_among xs t ≡ true) xs
all_among [] = tt
all_among (x ∷ xs) = (
  ground (arith, eq_refl x.database, eq_refl x.name),
  All-imp (λ t h. ground (arith, h)) xs (all_among xs),
)

-- Tests that agree on a list keep the same of it.
keep-All :
    {A : Type 0} (p q : A → Bool) (xs : List A) → All (λ x. p x ≡ q x) xs → keep p xs ≡ keep q xs
keep-All p q [] h = refl
keep-All p q (x ∷ xs) h = rw (h.0, keep-All p q xs h.1) refl

is_nil-keep : {A : Type 0} (p : A → Bool) (xs : List A) → is_nil (keep p xs) ≡ not (exists_in p xs)
is_nil-keep p [] = refl
is_nil-keep p (x ∷ xs) = elim (Bool-cases (p x)) [
  | inl passes ↦ rw passes refl
  | inr fails ↦ rw fails (is_nil-keep p xs)
]

module _ (acc : String → String → Bool) where
  abbrev accepts : TableMetadata → Bool
  accepts t = acc t.database t.name

  -- A test of the names says the same of tables with the same names.
  accepts-is_same :
      (t : TableMetadata) (xs : List TableMetadata)
      → exists_in (λ x. accepts x && is_same t x) xs ≡ (accepts t && is_among xs t)
  accepts-is_same t [] = ground arith
  accepts-is_same t (x ∷ xs) = elim (Bool-cases (is_same t x)) [
    | inr other ↦ rw (other, accepts-is_same t xs) (ground arith)
    | inl same ↦
        let e : accepts x ≡ accepts t =
          ap₂ acc ((eq_iff x.database t.database).0 (ground arith))
            ((eq_iff x.name t.name).0 (ground arith)) in
        rw (same, e, accepts-is_same t xs) (ground arith)
  ]

  among_accepted :
      (xs : List TableMetadata) → All (λ t. is_among (keep accepts xs) t ≡ accepts t) xs
  among_accepted xs =
      All-imp
        (λ t h.
          exists-keep accepts (is_same t) xs
          ∙ accepts-is_same t xs
          ∙ ap (λ b. accepts t && b) h
          ∙ ground arith)
        xs (all_among xs)

  none_missing :
      (xs : List TableMetadata) → exists_in (λ t. not (is_among xs t)) (keep accepts xs) ≡ false
  none_missing xs =
      exists-keep accepts (λ t. not (is_among xs t)) xs
      ∙ exists_in_none (λ t. accepts t && not (is_among xs t)) xs
          (All-imp (λ t h. ground (arith, h)) xs (all_among xs))

-- Where no database is external and the tables of the databases load, a restore with a filter takes
-- just the tables that the filter accepts if it accepts some, and all tables if it accepts none.
pub required_tables-accepted :
    (fnmatch : String → String → Bool) (filter : PartialRestoreFilter) (m : BackupMetadata)
    (databases : List String) (keep_going : Bool) (tables : List TableMetadata)
    → local_databases m databases ≡ ok databases
    → tables_of m databases ≡ ok tables
    → (pick_tables fnmatch (some filter) m databases >>= λ chosen.
        required_tables m databases chosen keep_going)
      ≡ ok (
          if exists_in (λ t. accept_table fnmatch t.database t.name filter) tables
          then keep (λ t. accept_table fnmatch t.database t.name filter) tables
          else tables)
unfolding pick_tables required_tables
required_tables-accepted fnmatch filter m databases keep_going tables local all =
    let acc = λ (d : String) (t : String). accept_table fnmatch d t filter in
    elim (Bool-cases (exists_in (accepts acc) tables)) [
      | inr none_accepted ↦
          rw
            (
              pick_tables,
              all,
              required_tables,
              local,
              all,
              is_nil-keep (accepts acc) tables,
              none_accepted,
            )
            refl
      | inl some_accepted ↦
          rw
            (
              pick_tables,
              all,
              required_tables,
              local,
              all,
              is_nil-keep (accepts acc) tables,
              some_accepted,
              none_missing acc tables,
            )
            (ap ok (keep-All _ (accepts acc) tables (among_accepted acc tables)))
    ]
