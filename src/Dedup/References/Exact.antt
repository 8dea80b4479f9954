-- ===== src/Dedup/References/Exact.antt =====
-- The collected references against the parts of the retained backups.
use ch_backup.Prelude.{
  String, Bool, false, ◌&&◌, ◌||◌, ◌==◌, eq_iff, ◌≡◌, refl, sym, ◌∙◌, inl, inr, List, [], ◌∷◌, ◌++◌,
  Dict, lookup, insert, lookup-insert, contains, set_add, contains-set_add, exists_in,
  if◌then◌else◌, arith, Result, ok, err, ◌>>=◌, >>=-eq-ok, Result-cases,
}
use ch_backup.Metadata.{PartMetadata, TableMetadata, BackupMetadata}
use ch_backup.Metadata.Part.{is_linked, deduplicated_part_name}
use ch_backup.Metadata.Table.{get_parts}
use ch_backup.Metadata.Backup.{
  get_databases, get_tables, all_parts, parts_of_tables, parts_of_databases,
}
use ch_backup.Dedup.References.{
  DedupReferences, get_list, add_part_to_dedup_references, link_of, collect_parts, collect_tables,
  collect_databases, collect_backups, collect_dedup_references, names_of,
}

-- `n` is in refs[b][d][t].
abbrev pub is_referenced : Dict DedupReferences → String → String → String → String → Bool
is_referenced refs b d t n = contains n (get_list t (get_list d (get_list b refs)))

-- The part is stored by backup `b`, under the name `n` in table `d`.`t`.
abbrev pub refers_to : String → String → String → String → PartMetadata → Bool
refers_to b d t n p =
    is_linked p
    && (link_of p == b)
    && (p.database == d)
    && (p.table == t)
    && (deduplicated_part_name p == n)

get_list-insert :
    {A : Type 0} (k j : String) (xs : List A) (m : Dict (List A))
    → get_list j (insert k xs m) ≡ (if k == j then xs else get_list j m)
unfolding get_list
get_list-insert k j xs m = ground (arith, lookup-insert k j xs m)

-- One part more.
add_part-referenced :
    (p : PartMetadata) (refs : DedupReferences) (d t n : String)
    → contains n (get_list t (get_list d (add_part_to_dedup_references p refs))) ≡ (
        ((p.database == d) && (p.table == t) && (deduplicated_part_name p == n))
        || contains n (get_list t (get_list d refs)))
unfolding add_part_to_dedup_references
add_part-referenced p refs d t n =
    let tables = get_list p.database refs in
    let names = get_list p.table tables in
    let name = deduplicated_part_name p in
    ground (
      arith,
      get_list-insert p.database d (insert p.table (set_add name names) tables) refs,
      get_list-insert p.table t (set_add name names) tables,
      contains-set_add name n names,
      eq_iff p.database d,
      eq_iff p.table t,
    )

-- What the loop makes of one part.
abbrev step : List String → PartMetadata → Dict DedupReferences → Dict DedupReferences
step deleting p refs =
    if is_linked p && contains (link_of p) deleting
    then insert (link_of p) (add_part_to_dedup_references p (get_list (link_of p) refs)) refs
    else refs

shuffle : (a m e x : Bool) → ((a || (m && e)) || (m && x)) ≡ (a || (m && (e || x)))
shuffle a m e x = ground arith

module _ (deleting : List String) (b d t n : String) where
  step-exact :
      (p : PartMetadata) (refs : Dict DedupReferences)
      → is_referenced (step deleting p refs) b d t n
        ≡ (is_referenced refs b d t n || (contains b deleting && refers_to b d t n p))
  step-exact p refs =
      let link = link_of p in
      ground (
        arith,
        get_list-insert link b (add_part_to_dedup_references p (get_list link refs)) refs,
        add_part-referenced p (get_list link refs) d t n,
        eq_iff link b,
      )

  -- Every part that links to a backup in `deleting` is referenced, and nothing else is added.
  pub collect_parts-exact :
      (ps : List PartMetadata) (refs : Dict DedupReferences)
      → is_referenced (collect_parts deleting ps refs) b d t n
        ≡ (is_referenced refs b d t n || (contains b deleting && exists_in (refers_to b d t n) ps))
  unfolding collect_parts
  collect_parts-exact [] refs = ground arith
  collect_parts-exact (p ∷ ps) refs =
      rw (collect_parts-exact ps (step deleting p refs), step-exact p refs)
        (shuffle (is_referenced refs b d t n) (contains b deleting) (refers_to b d t n p)
          (exists_in (refers_to b d t n) ps))

collect_parts-append :
    (deleting : List String) (xs ys : List PartMetadata) (refs : Dict DedupReferences)
    → collect_parts deleting (xs ++ ys) refs
      ≡ collect_parts deleting ys (collect_parts deleting xs refs)
unfolding collect_parts
collect_parts-append deleting [] ys refs = refl
collect_parts-append deleting (x ∷ xs) ys refs =
    collect_parts-append deleting xs ys (step deleting x refs)

-- The loops over tables and databases visit the parts that `get_parts` of the backup returns, and
-- raise where it raises.
collect_tables-eq :
    (deleting : List String) (ts : List TableMetadata) (refs : Dict DedupReferences)
    → collect_tables deleting ts refs
      ≡ (parts_of_tables ts >>= λ ps. ok (collect_parts deleting ps refs))
unfolding collect_tables parts_of_tables collect_parts
collect_tables-eq deleting [] refs = refl
collect_tables-eq deleting (t ∷ ts) refs = elim (Result-cases (get_parts [] t)) [
  | inr (e, raised) ↦ rw raised
  | inl (ps, got) ↦
      rw (got, collect_tables-eq deleting ts (collect_parts deleting ps refs))
        (elim (Result-cases (parts_of_tables ts)) [
          | inr (e, raised) ↦ rw raised
          | inl (qs, others) ↦ rw (others, collect_parts-append deleting ps qs refs)
        ])
]

collect_databases-eq :
    (deleting names : List String) (m : BackupMetadata) (refs : Dict DedupReferences)
    → collect_databases deleting names m refs
      ≡ (parts_of_databases names m >>= λ ps. ok (collect_parts deleting ps refs))
unfolding collect_databases parts_of_databases collect_parts
collect_databases-eq deleting [] m refs = refl
collect_databases-eq deleting (name ∷ names) m refs = elim (Result-cases (get_tables name m)) [
  | inr (e, raised) ↦ rw raised
  | inl (ts, got) ↦
      rw (got, collect_tables-eq deleting ts refs)
        (elim (Result-cases (parts_of_tables ts)) [
          | inr (e, raised) ↦ rw raised
          | inl (ps, first) ↦
              rw (first, collect_databases-eq deleting names m (collect_parts deleting ps refs))
                (elim (Result-cases (parts_of_databases names m)) [
                  | inr (e, raised) ↦ rw raised
                  | inl (qs, others) ↦ rw (others, collect_parts-append deleting ps qs refs)
                ])
        ])
]

module _ (reload : BackupMetadata → Result BackupMetadata) where
  -- The parts of a backup as it is stored.
  abbrev pub stored_parts : BackupMetadata → Result (List PartMetadata)
  stored_parts light = do backup ← reload light; all_parts backup

  abbrev pub parts_of : Result (List PartMetadata) → List PartMetadata
  parts_of (ok ps) = ps
  parts_of (err e) = []

  -- Some backup of the list holds a part that is stored by backup `b` under that name.
  unfoldable pub is_linked_from : List BackupMetadata → String → String → String → String → Bool
  is_linked_from [] b d t n = false
  is_linked_from (light ∷ rest) b d t n =
      exists_in (refers_to b d t n) (parts_of (stored_parts light)) || is_linked_from rest b d t n

  collect_backups-exact :
      (deleting : List String) (retained : List BackupMetadata) (refs refs' : Dict DedupReferences)
      (b d t n : String)
      → collect_backups reload deleting retained refs ≡ ok refs'
      → is_referenced refs' b d t n
        ≡ (is_referenced refs b d t n || (contains b deleting && is_linked_from retained b d t n))
  unfolding collect_backups is_linked_from all_parts
  collect_backups-exact deleting [] refs refs' b d t n h = ground arith
  collect_backups-exact deleting (light ∷ rest) refs refs' b d t n h =
      let (m, e, h1) =
        >>=-eq-ok (reload light)
          (λ m. collect_databases deleting (get_databases m) m refs >>= λ r.
            collect_backups reload deleting rest r)
          h in
      let (refs1, e1, h2) =
        >>=-eq-ok (collect_databases deleting (get_databases m) m refs)
          (λ r. collect_backups reload deleting rest r) h1 in
      let (ps, e2, e3) =
        >>=-eq-ok (parts_of_databases (get_databases m) m)
          (λ ps. ok (collect_parts deleting ps refs))
          (sym (collect_databases-eq deleting (get_databases m) m refs) ∙ e1) in
      ground (
        arith,
        e,
        e2,
        e3,
        collect_parts-exact deleting b d t n ps refs,
        collect_backups-exact deleting rest refs1 refs' b d t n h2,
      )

  -- Where the collection succeeds, the references name a part exactly when its backup is about to
  -- be deleted and some retained backup holds a part that is stored by that backup under that name.
  pub collect_dedup_references-exact :
      (retained deleting : List BackupMetadata) (refs : Dict DedupReferences) (b d t n : String)
      → collect_dedup_references reload retained deleting ≡ ok refs
      → is_referenced refs b d t n
        ≡ (contains b (names_of deleting) && is_linked_from retained b d t n)
  unfolding collect_dedup_references is_linked_from get_list lookup
  collect_dedup_references-exact retained deleting refs b d t n h =
      collect_backups-exact (names_of deleting) retained [] refs b d t n h
