-- ===== src/Lifecycle/Delete/Safety.antt =====
-- `_delete` step by step, and the files that are to stay.
use mathlib.Core.Path.{subst}
use ch_backup.Prelude.{
  ◌≡◌, refl, sym, ap, ◌∙◌, inl, inr, String, Bool, true, false, ◌==◌, eq_iff, none, some, List, [],
  ◌∷◌, Dict, lookup, contains, AllItems-lookup, Bool-cases, Option-cases, All, ok, ok-injective,
}
use ch_backup.Metadata.{
  RawTable, PartMetadata, TableMetadata, BackupMetadata, partially_deleted, deleting,
}
use ch_backup.Metadata.Table.{get_parts, load_table}
use ch_backup.Metadata.Backup.{load_tables, get_tables, get_databases}
use ch_backup.Metadata.Backup.OwnNamed.{AreOwnParts, AreOwnTables, AreOwnNamed, remove_parts-own}
use ch_backup.Dedup.References.{DedupReferences, get_list}
use ch_backup.Lifecycle.Exec.{Exec, Keeps, Keeps-bind, Keeps-bind-lift, Keeps-carry_on, Keeps-lift}
use ch_backup.Lifecycle.Services.{Services, IsSafe}
use ch_backup.Lifecycle.Delete
use ch_backup.Lifecycle.Delete.{Work, own_parts, is_nil}
use ch_backup.Lifecycle.Delete.Spared.{own_parts-spared, own_parts-own}

module _ (is_part : PartMetadata → Bool) where
  -- The tables of a database, as `get_tables` returns them.
  abbrev AreTablesOf : String → List TableMetadata → Type 0
  AreTablesOf db_name =
      All (λ t. (t.database ≡ db_name) × AreOwnParts is_part t.database t.name t.parts)

  load_tables-own :
      (db_name : String) (tables : Dict RawTable)
      → AreOwnTables is_part db_name tables
      → AreTablesOf db_name (load_tables db_name tables)
  unfolding load_tables load_table
  load_tables-own db_name [] own = tt
  load_tables-own db_name ((name, raw) ∷ rest) own =
      ((refl, own.0), load_tables-own db_name rest own.1)

  get_tables-own :
      (db_name : String) (m : BackupMetadata) (tables : List TableMetadata)
      → AreOwnNamed is_part m.databases
      → get_tables db_name m ≡ ok tables
      → AreTablesOf db_name tables
  unfolding get_tables
  get_tables-own db_name m tables own h = elim (Option-cases (lookup db_name m.databases)) [
    | inl missing ↦ cc (rw (missing, get_tables) at h)
    | inr (db, there) ↦
        rw (← ok-injective (rw (there, get_tables) at h))
          (load_tables-own db_name db.tables (AllItems-lookup _ db_name db m.databases own there))
  ]

module _ (v : Services) (safe : IsSafe v) (bd b d t n : String) (refs : DedupReferences)
    (named : safe.is_name bd ≡ true)
    (spare : (bd == b) ≡ true → contains n (get_list t (get_list d refs)) ≡ true) where
  -- The object is the backup that is being deleted, and the files are there.
  record IsKept (w : Work v) : Type 0 where
    names : w.backup.name ≡ bd
    own : AreOwnNamed safe.is_part w.backup.databases
    there : safe.has_data w.state b d t n ≡ true

  Stays : v.State → Type 0
  Stays s = safe.has_data s b d t n ≡ true

  on_state-Keeps :
      {A : Type 0} (m : BackupMetadata → Exec v.State A)
      → ((backup : BackupMetadata) → backup.name ≡ bd → Keeps Stays (m backup))
      → Keeps IsKept (Delete.on_state v m)
  unfolding Stays
  on_state-Keeps m k = record {
    at = λ w h. record {
      names = h.names;
      own = h.own;
      there = (k w.backup h.names).at w.state h.there;
    };
  }

  delete_data_parts-Keeps :
      (table : TableMetadata) (excluded : List String) (ps : List PartMetadata) (m : BackupMetadata)
      → ((bd == b) ≡ true
          → (table.database == d) ≡ true
          → (table.name == t) ≡ true
          → contains n excluded ≡ true)
      → AreOwnParts safe.is_part table.database table.name table.parts
      → get_parts excluded table ≡ ok ps
      → m.name ≡ bd
      → Keeps Stays (v.delete_data_parts m (own_parts ps))
  unfolding Stays
  delete_data_parts-Keeps table excluded ps m spared own got name = record {
    at = λ s h.
        safe.delete_data_parts_keeps m (own_parts ps) s b d t n (ap safe.is_name name ∙ named)
          (own_parts-own safe.is_part excluded table ps own got)
          (own_parts-spared safe.is_part m b d t n excluded table ps
            (λ same. spared (sym (ap (λ x. x == b) name) ∙ same)) own got)
          h;
  }

  delete_table_parts-Keeps :
      (table : TableMetadata) (excluded : List String)
      → ((bd == b) ≡ true
          → (table.database == d) ≡ true
          → (table.name == t) ≡ true
          → contains n excluded ≡ true)
      → AreOwnParts safe.is_part table.database table.name table.parts
      → Keeps IsKept (Delete.delete_table_parts v table excluded)
  unfolding Delete.delete_table_parts
  delete_table_parts-Keeps table excluded spared own =
      Keeps-bind-lift (get_parts excluded table) _ λ ps got.
        Keeps-bind _ _
          (on_state-Keeps (λ backup. v.delete_data_parts backup (own_parts ps))
            λ m name. delete_data_parts-Keeps table excluded ps m spared own got name)
          λ _. record {
            at = λ w h.
                let (name, still) = remove_parts-own safe.is_part table ps w.backup h.own in
                record { names = name ∙ h.names; own = still; there = h.there };
          }

  delete_tables-Keeps :
      (db_name : String) (tables : List TableMetadata)
      → AreTablesOf safe.is_part db_name tables
      → Keeps IsKept (Delete.delete_tables v (get_list db_name refs) tables)
  unfolding Delete.delete_tables
  delete_tables-Keeps db_name [] own = record { at = λ w h. h }
  delete_tables-Keeps db_name (table ∷ tables) own =
      Keeps-bind _ _
        (delete_table_parts-Keeps table (get_list table.name (get_list db_name refs)) spared
          own.0.1)
        λ _. delete_tables-Keeps db_name tables own.1
    where
      spared :
          (bd == b) ≡ true
          → (table.database == d) ≡ true
          → (table.name == t) ≡ true
          → contains n (get_list table.name (get_list db_name refs)) ≡ true
      spared same db_same table_same =
          rw ((eq_iff _ _).0 table_same, ← own.0.0, (eq_iff _ _).0 db_same) (spare same)

  delete_databases-Keeps :
      (db_names : List String) → Keeps IsKept (Delete.delete_databases v refs db_names)
  unfolding Delete.delete_databases
  delete_databases-Keeps [] = record { at = λ w h. h }
  delete_databases-Keeps (db_name ∷ db_names) = record {
    at = λ w h.
        (Keeps-bind-lift (get_tables db_name w.backup) _ λ tables got.
            Keeps-bind _ _
              (delete_tables-Keeps db_name tables
                (get_tables-own safe.is_part db_name w.backup tables h.own got))
              λ _. delete_databases-Keeps db_names).at
          w h;
  }

  unfreeze-Keeps : Keeps IsKept (Delete.on_state v (λ m. v.system_unfreeze m.name))
  unfolding Stays
  unfreeze-Keeps =
      on_state-Keeps (λ m. v.system_unfreeze m.name)
        λ m name. record { at = λ s. safe.unfreeze_keeps m.name s b d t n }

  -- With no references the whole backup goes, and then the files are another backup's.
  not_spared : refs ≡ [] → (bd == b) ≡ false
  unfolding get_list lookup
  not_spared e = elim (Bool-cases (bd == b)) [
    | inl same ↦ cc (rw (e, get_list, lookup) at (spare same))
    | inr other ↦ other
  ]

  -- `r` is the references; the clauses split on it.
  try_delete-Keeps : (r : DedupReferences) → refs ≡ r → Keeps IsKept (Delete.try_delete v r)
  unfolding Delete.try_delete Stays
  try_delete-Keeps [] e = record {
    at = λ w h.
        (Keeps-bind {Y = Delete.Reply v} (Delete.on_state v (λ m. v.delete_backup m.name)) _
            (on_state-Keeps (λ m. v.delete_backup m.name)
              λ m name. record {
                at = λ s.
                    safe.delete_backup_keeps m.name s b d t n (ap safe.is_name name ∙ named)
                      (ap (λ x. x == b) name ∙ not_spared e);
              })
            λ _.
              Keeps-bind {Y = Delete.Reply v} _ _ unfreeze-Keeps
                λ _. Keeps-lift (ok (some w.backup.name, none))).at
          w h;
  }
  try_delete-Keeps (x ∷ xs) e = record {
    at = λ w h.
        (Keeps-bind {Y = Delete.Reply v}
            (Delete.delete_databases v (x ∷ xs) (get_databases w.backup)) _
            (subst (λ r. Keeps IsKept (Delete.delete_databases v r (get_databases w.backup))) e
              (delete_databases-Keeps (get_databases w.backup)))
            λ _.
              Keeps-bind {Y = Delete.Reply v} _ _ unfreeze-Keeps
                λ _. Keeps-lift (ok (none, some Delete.partially_deleted_message))).at
          w h;
  }

  finally_delete-Keeps : (m : BackupMetadata) → Keeps Stays (Delete.finally_delete v refs m)
  unfolding Delete.finally_delete Stays
  finally_delete-Keeps m =
      Keeps-bind v.wait _ (record { at = λ s. safe.wait_keeps s b d t n })
        λ _. elim (Bool-cases (is_nil refs)) [
          | inl none_left ↦ rw none_left (Keeps-lift (ok tt))
          | inr some_left ↦ rw some_left (record {
            at = λ s. safe.upload_keeps (record m { state = partially_deleted }) s b d t n;
          })
        ]

-- On services that delete no more than they are asked to, _delete keeps the files stored under a
-- backup, database, table and part name unless the backup is the one it is given and its references
-- do not name the part there, whether it returns or raises.
pub delete_one-safe :
    (v : Services) (safe : IsSafe v) (light : BackupMetadata) (refs : DedupReferences) (s : v.State)
    (b d t n : String)
    → safe.is_name light.name ≡ true
    → ((light.name == b) ≡ true → contains n (get_list t (get_list d refs)) ≡ true)
    → safe.has_data s b d t n ≡ true
    → safe.has_data (Delete.delete_one v light refs s).1 b d t n ≡ true
unfolding Delete.delete_one Stays
delete_one-safe v safe light refs s b d t n named spare h =
    (Keeps-carry_on (v.reload_backup s light) _ λ loaded got.
        let (name, own) = safe.reload_keeps light loaded s named got in
        Keeps-bind (v.upload_backup_metadata (record loaded { state = deleting })) _
          (record { at = λ s0. safe.upload_keeps (record loaded { state = deleting }) s0 b d t n })
          λ _. record {
            at = λ s1 h1.
                let (r, w) =
                  Delete.try_delete v refs
                    (record { backup = record loaded { state = deleting }; state = s1 }) in
                let kept =
                  (try_delete-Keeps v safe light.name b d t n refs named spare refs refl).at
                    (record { backup = record loaded { state = deleting }; state = s1 })
                    (record { names = name; own = own; there = h1 }) in
                (Keeps-bind (Delete.finally_delete v refs (Delete.after_error v r w.backup)) _
                    (finally_delete-Keeps v safe light.name b d t n refs named spare
                      (Delete.after_error v r w.backup))
                    λ _. Keeps-lift r).at
                  w.state kept.there;
          })
      s h
