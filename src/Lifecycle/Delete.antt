-- ===== src/Lifecycle/Delete.antt =====
-- `_delete`, `_delete_data_parts` and `delete` of `ClickhouseBackup`.
pub mod Spared
pub mod Safety
pub mod Uploads
use ch_backup.Prelude.{
  String, Bool, true, false, not, ◌&&◌, ◌==◌, Option, none, some, List, [], ◌∷◌, Dict,
  if◌then◌else◌, Result, ok, err, Error, backup_not_found, keep,
}
use ch_backup.Metadata.{
  PartMetadata, TableMetadata, BackupMetadata, BackupState, created, deleting, partially_deleted,
  failed,
}
use ch_backup.Metadata.Part.{is_linked}
use ch_backup.Metadata.Table.{get_parts}
use ch_backup.Metadata.Backup.{get_databases, get_tables, remove_parts}
use ch_backup.Dedup.References.{
  DedupReferences, DatabaseDedupReferences, get_list, names_of, collect_dedup_references,
}
use ch_backup.Lifecycle.Exec.{Exec, carry_on, pure, raise, lift, ◌>>=◌, ◌>>◌}
use ch_backup.Lifecycle.Services.{Services}

-- The message of a partial deletion.
abbrev pub partially_deleted_message : String
partially_deleted_message =
    "Backup was partially deleted as its data is in use by subsequent backups per deduplication settings."

-- The parts that the backup stores itself.
abbrev pub own_parts : List PartMetadata → List PartMetadata
own_parts = keep (λ part. not (is_linked part))

abbrev pub is_nil : {A : Type 0} → List A → Bool
is_nil [] = true
is_nil (x ∷ xs) = false

module _ (v : Services) where
  -- What the body of `_delete` works on: the `backup` object and the rest of the world.
  pub record Work : Type 0 where
    pub backup : BackupMetadata
    pub state : v.State

  -- an action on the world, or on the object
  abbrev pub on_state : {A : Type 0} → (BackupMetadata → Exec v.State A) → Exec Work A
  on_state m w = let (r, s) = m w.backup w.state in (r, record w { state = s })

  abbrev pub on_backup : {A : Type 0} → (BackupMetadata → Result A × BackupMetadata) → Exec Work A
  on_backup m w = let (r, b) = m w.backup in (r, record w { backup = b })

  abbrev pub with_backup : {A : Type 0} → (BackupMetadata → Exec Work A) → Exec Work A
  with_backup m w = m w.backup w

  -- `_delete_data_parts`
  delete_table_parts : TableMetadata → List String → Exec Work (Unit {0})
  delete_table_parts table excluded_parts = do
    parts ← lift (get_parts excluded_parts table)
    on_state (λ backup. v.delete_data_parts backup (own_parts parts))
    on_backup (remove_parts table parts)

  delete_tables : DatabaseDedupReferences → List TableMetadata → Exec Work (Unit {0})
  delete_tables refs [] = pure tt
  delete_tables refs (table ∷ tables) = do
    delete_table_parts table (get_list table.name refs)
    delete_tables refs tables

  delete_databases : DedupReferences → List String → Exec Work (Unit {0})
  delete_databases refs [] = pure tt
  delete_databases refs (db_name ∷ db_names) = do
    tables ← with_backup (λ backup. lift (get_tables db_name backup))
    delete_tables (get_list db_name refs) tables
    delete_databases refs db_names

  abbrev pub Reply : Type 0
  Reply = Option String × Option String

  -- The `try` block of `_delete`.
  try_delete : DedupReferences → Exec Work Reply
  try_delete refs = with_backup λ backup.
      if is_nil refs
      then (do
        on_state (λ b. v.delete_backup b.name)
        on_state (λ b. v.system_unfreeze b.name)
        pure (some backup.name, none))
      else (do
        delete_databases refs (get_databases backup)
        on_state (λ b. v.system_unfreeze b.name)
        pure (none, some partially_deleted_message))

  -- The `except` block marks the object, and raises again.
  after_error : {A : Type 0} → Result A → BackupMetadata → BackupMetadata
  after_error (ok a) backup = backup
  after_error (err e) backup = record backup { state = failed; exception = some (v.describe e) }

  -- The `finally` block; what it raises comes in place of the outcome of the rest.
  finally_delete : DedupReferences → BackupMetadata → Exec v.State (Unit {0})
  finally_delete refs backup = do
    v.wait
    if is_nil refs
        then pure tt
        else v.upload_backup_metadata (record backup { state = partially_deleted })

  pub delete_one : BackupMetadata → DedupReferences → Exec v.State Reply
  delete_one light refs s =
      carry_on (v.reload_backup s light)
        (λ loaded. do
          let backup = record loaded { state = deleting }
          v.upload_backup_metadata backup
          λ s1.
              let (r, w) = try_delete refs (record { backup = backup; state = s1 }) in
              let (r', s2) = finally_delete refs (after_error r w.backup) w.state in
              carry_on r' (λ _. lift r) s2)
        s
