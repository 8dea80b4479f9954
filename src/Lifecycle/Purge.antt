-- ===== src/Lifecycle/Purge.antt =====
-- The commands `delete` and `purge` of `ClickhouseBackup`: which backups go, and their deletion. The
-- lock that both hold is not modelled; `purge` lists the names before it takes the lock, so it is
-- given two states, that of the listing and that of the rest.
pub mod Retained
pub mod Chosen
pub mod Safety
pub mod Commands
mod Tests
use ch_backup.Prelude.{
  ℕ, ◌+◌, ◌-◌, ltb, leb, String, Bool, true, false, not, ◌&&◌, ◌||◌, ◌==◌, Option, none, some, List,
  [], ◌∷◌, ◌++◌, Dict, contains, if◌then◌else◌, Result, ok, err, type_error, backup_not_found,
}
use ch_backup.Paths.{is_empty}
use ch_backup.Metadata.{BackupMetadata, BackupState, created}
use ch_backup.Dedup.References.{DedupReferences, get_list, collect_dedup_references}
use ch_backup.Lifecycle.Exec.{Exec, pure, raise, lift, ◌>>=◌, ◌>>◌}
use ch_backup.Lifecycle.Services.{Services}
use ch_backup.Lifecycle.Delete.{Reply, delete_one}

abbrev pub is_created : BackupState → Bool
is_created created = true
is_created _ = false

-- `retain_time` as the seconds of its `timedelta`, `none` for an empty one, and `retain_count`.
pub record Retention : Type 0 where
  pub retain_time : Option ℕ
  pub retain_count : Option ℕ

-- `backup.start_time >= retain_time_limit`, where the limit is `now() - timedelta(**retain_time)`
unfoldable pub is_recent : Option ℕ → ℕ → BackupMetadata → Bool
is_recent none now backup = false
is_recent (some seconds) now backup = leb now (backup.start_time.instant + seconds)

abbrev pub is_none : {A : Type 0} → Option A → Bool
is_none none = true
is_none (some x) = false

-- What the loop of `purge` has in hand.
pub record Selection : Type 0 where
  pub retain_count : Option ℕ
  pub retained : List BackupMetadata
  pub deleting : List BackupMetadata

abbrev pub retain : Option ℕ → BackupMetadata → Selection → Selection
retain count backup sel = record sel {
  retain_count = count;
  retained = sel.retained ++ (backup ∷ []);
}

-- The retain count after a backup that it preserves: partial backups do not count.
abbrev pub count_down : ℕ → BackupMetadata → ℕ
count_down count backup = if is_created backup.state then count - 1 else count

-- One pass of the loop over a backup whose name is listed. `None > 0` raises.
unfoldable pub select_one : Option ℕ → ℕ → BackupMetadata → Selection → Result Selection
unfolding is_recent
select_one retain_time now backup sel = elim sel.retain_count [
  | none ↦ err type_error
  | some count ↦
      if ltb 0 count
      then ok (retain (some (count_down count backup)) backup sel)
      else if is_recent retain_time now backup
      then ok (retain sel.retain_count backup sel)
      else ok (record sel { deleting = sel.deleting ++ (backup ∷ []) })
]

-- The names in the reply of `purge`.
abbrev pub add_deleted : Option String → List String → List String
add_deleted none names = names
add_deleted (some name) names = if is_empty name then names else name ∷ names

-- The backups of the command `delete`, and those that stay.
pub record Split : Type 0 where
  pub deleting : List BackupMetadata
  pub retained : List BackupMetadata

-- The loop of `delete`; `first` is whether the backup is the newest.
pub split : String → Bool → Bool → List BackupMetadata → Split
split name purge_partial first [] = record { deleting = []; retained = [] }
split name purge_partial first (backup ∷ backups) =
    let rest = split name purge_partial false backups in
    if backup.name == name
    then record rest { deleting = backup ∷ rest.deleting }
    else if purge_partial && not (is_created backup.state) && not first
    then record rest { deleting = backup ∷ rest.deleting }
    else record rest { retained = backup ∷ rest.retained }

abbrev pub is_found : String → List BackupMetadata → Bool
is_found name [] = false
is_found name (backup ∷ backups) = backup.name == name || is_found name backups

module _ (v : Services) where
  abbrev pub ask : {A : Type 0} → (v.State → Result A) → Exec v.State A
  ask f s = (f s, s)

  -- The loop of `purge`: a backup that was not listed goes at once.
  pub select : List String → Option ℕ → ℕ → List BackupMetadata → Selection → Exec v.State Selection
  select names retain_time now [] sel = pure sel
  select names retain_time now (backup ∷ backups) sel =
      if contains backup.name names
      then (do
        sel' ← lift (select_one retain_time now backup sel)
        select names retain_time now backups sel')
      else (do v.delete_backup backup.name; select names retain_time now backups sel)

  -- The deletions of `purge` and of `delete`, with a reply for each backup.
  pub delete_each :
      Dict DedupReferences → List BackupMetadata → Exec v.State (List (String × Reply v))
  delete_each refs [] = pure []
  delete_each refs (backup ∷ backups) = do
    reply ← delete_one v backup (get_list backup.name refs)
    replies ← delete_each refs backups
    pure ((backup.name, reply) ∷ replies)

  pub delete_batch :
      List BackupMetadata → List BackupMetadata → Exec v.State (List (String × Reply v))
  delete_batch retained deleting = do
    refs ← ask (λ s. collect_dedup_references (v.reload_backup s) retained deleting)
    delete_each refs deleting

  abbrev pub deleted_names : List (String × Reply v) → List String
  deleted_names [] = []
  deleted_names ((name, reply) ∷ replies) = add_deleted reply.0 (deleted_names replies)

  abbrev pub not_specified : String
  not_specified = "Retain policies are not specified."

  -- The part of `purge` under the lock.
  pub purge_locked : Retention → ℕ → List String → Exec v.State (List String × Option String)
  purge_locked config now names = do
    backups ← ask v.get_backups
    sel ←
        select names config.retain_time now backups
          (record { retain_count = config.retain_count; retained = []; deleting = [] })
    replies ← delete_batch sel.retained sel.deleting
    pure (deleted_names replies, none)

  pub purge : Retention → ℕ → v.State → Exec v.State (List String × Option String)
  purge config now listing =
      if is_none config.retain_time && is_none config.retain_count
      then pure ([], some not_specified)
      else (do names ← lift (v.get_backup_names listing); purge_locked config now names)

  -- The reply for the named backup: the last one of that name.
  abbrev pub reply_for : String → Reply v → List (String × Reply v) → Reply v
  reply_for name result [] = result
  reply_for name result ((n, reply) ∷ replies) =
      reply_for name (if name == n then reply else result) replies

  pub delete : String → Bool → Exec v.State (Reply v)
  delete name purge_partial = do
    backups ← ask v.get_backups
    if is_found name backups
        then (do
          let sp = split name purge_partial true backups
          replies ← delete_batch sp.retained sp.deleting
          pure (reply_for name (none, none) replies))
        else raise (backup_not_found name)
