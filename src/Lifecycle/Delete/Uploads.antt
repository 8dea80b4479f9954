-- ===== src/Lifecycle/Delete/Uploads.antt =====
-- `_delete` and the states of the metadata that it uploads.
use ch_backup.Prelude.{◌≡◌, refl, ◌⊎◌, inl, inr, String, none, some, List, [], ◌∷◌, Bool-cases, ok}
use ch_backup.Metadata.{PartMetadata, TableMetadata, BackupMetadata, partially_deleted, deleting}
use ch_backup.Metadata.Table.{get_parts}
use ch_backup.Metadata.Backup.{get_tables, get_databases}
use ch_backup.Dedup.References.{DedupReferences, DatabaseDedupReferences, get_list}
use ch_backup.Lifecycle.Exec.{Exec, Keeps, Keeps-bind, Keeps-bind-lift, Keeps-carry_on, Keeps-lift}
use ch_backup.Lifecycle.Services.{Services}
use ch_backup.Lifecycle.Delete
use ch_backup.Lifecycle.Delete.{Work, own_parts, is_nil}

-- What all services keep, with uploads in the two states of a deletion only.
pub record IsKept (v : Services) (P : v.State → Type 0) : Type 1 where
  pub wait : Keeps P v.wait
  pub unfreeze : (name : String) → Keeps P (v.system_unfreeze name)
  pub delete_backup : (name : String) → Keeps P (v.delete_backup name)
  pub delete_data_parts :
      (m : BackupMetadata) (parts : List PartMetadata) → Keeps P (v.delete_data_parts m parts)
  pub upload :
      (m : BackupMetadata)
      → (m.state ≡ deleting) ⊎ (m.state ≡ partially_deleted)
      → Keeps P (v.upload_backup_metadata m)

module _ (v : Services) (P : v.State → Type 0) (kept : IsKept v P) where
  AtState : Work v → Type 0
  AtState w = P w.state

  on_state-Keeps :
      {A : Type 0} (m : BackupMetadata → Exec v.State A)
      → ((backup : BackupMetadata) → Keeps P (m backup))
      → Keeps AtState (Delete.on_state v m)
  unfolding AtState
  on_state-Keeps m k = record { at = λ w p. (k w.backup).at w.state p }

  delete_table_parts-Keeps :
      (table : TableMetadata) (excluded : List String)
      → Keeps AtState (Delete.delete_table_parts v table excluded)
  unfolding Delete.delete_table_parts AtState
  delete_table_parts-Keeps table excluded = Keeps-bind-lift (get_parts excluded table) _ λ ps got.
      Keeps-bind _ _
        (on_state-Keeps (λ backup. v.delete_data_parts backup (own_parts ps))
          λ m. kept.delete_data_parts m (own_parts ps))
        λ _. record { at = λ w p. p }

  delete_tables-Keeps :
      (refs : DatabaseDedupReferences) (tables : List TableMetadata)
      → Keeps AtState (Delete.delete_tables v refs tables)
  unfolding Delete.delete_tables
  delete_tables-Keeps refs [] = record { at = λ w p. p }
  delete_tables-Keeps refs (table ∷ tables) =
      Keeps-bind _ _ (delete_table_parts-Keeps table (get_list table.name refs))
        λ _. delete_tables-Keeps refs tables

  delete_databases-Keeps :
      (refs : DedupReferences) (names : List String)
      → Keeps AtState (Delete.delete_databases v refs names)
  unfolding Delete.delete_databases
  delete_databases-Keeps refs [] = record { at = λ w p. p }
  delete_databases-Keeps refs (name ∷ names) = record {
    at = λ w p.
        (Keeps-bind-lift (get_tables name w.backup) _ λ tables got.
            Keeps-bind _ _ (delete_tables-Keeps (get_list name refs) tables)
              λ _. delete_databases-Keeps refs names).at
          w p;
  }

  unfreeze-Keeps : Keeps AtState (Delete.on_state v (λ m. v.system_unfreeze m.name))
  unfreeze-Keeps = on_state-Keeps (λ m. v.system_unfreeze m.name) λ m. kept.unfreeze m.name

  try_delete-Keeps : (refs : DedupReferences) → Keeps AtState (Delete.try_delete v refs)
  unfolding Delete.try_delete
  try_delete-Keeps [] = record {
    at = λ w p.
        (Keeps-bind {Y = Delete.Reply v} (Delete.on_state v (λ m. v.delete_backup m.name)) _
            (on_state-Keeps (λ m. v.delete_backup m.name) λ m. kept.delete_backup m.name)
            λ _.
              Keeps-bind {Y = Delete.Reply v} _ _ unfreeze-Keeps
                λ _. Keeps-lift (ok (some w.backup.name, none))).at
          w p;
  }
  try_delete-Keeps (x ∷ xs) = record {
    at = λ w p.
        (Keeps-bind {Y = Delete.Reply v}
            (Delete.delete_databases v (x ∷ xs) (get_databases w.backup)) _
            (delete_databases-Keeps (x ∷ xs) (get_databases w.backup))
            λ _.
              Keeps-bind {Y = Delete.Reply v} _ _ unfreeze-Keeps
                λ _. Keeps-lift (ok (none, some Delete.partially_deleted_message))).at
          w p;
  }

  finally_delete-Keeps :
      (refs : DedupReferences) (m : BackupMetadata) → Keeps P (Delete.finally_delete v refs m)
  unfolding Delete.finally_delete
  finally_delete-Keeps refs m = Keeps-bind v.wait _ kept.wait λ _. elim (Bool-cases (is_nil refs)) [
    | inl none_left ↦ rw none_left (Keeps-lift (ok tt))
    | inr some_left ↦ rw some_left (kept.upload (record m { state = partially_deleted }) (inr refl))
  ]

-- A property of the storage that the waiting, the unfreezing, the deletions and the uploads of
-- metadata in the state deleting or partially deleted keep, _delete keeps too, whether it returns
-- or raises: it makes no upload in another state.
pub delete_one-Keeps :
    (v : Services) (P : v.State → Type 0) (light : BackupMetadata) (refs : DedupReferences)
    (s : v.State)
    → IsKept v P
    → P s
    → P (Delete.delete_one v light refs s).1
unfolding Delete.delete_one AtState
delete_one-Keeps v P light refs s kept p =
    (Keeps-carry_on {P = P} (v.reload_backup s light) _ λ loaded got.
        Keeps-bind (v.upload_backup_metadata (record loaded { state = deleting })) _
          (kept.upload (record loaded { state = deleting }) (inl refl))
          λ _. record {
            at = λ s1 p1.
                let (r, w) =
                  Delete.try_delete v refs
                    (record { backup = record loaded { state = deleting }; state = s1 }) in
                (Keeps-bind (Delete.finally_delete v refs (Delete.after_error v r w.backup)) _
                    (finally_delete-Keeps v P kept refs (Delete.after_error v r w.backup))
                    λ _. Keeps-lift r).at
                  w.state
                  ((try_delete-Keeps v P kept refs).at
                    (record { backup = record loaded { state = deleting }; state = s1 }) p1);
          })
      s p
