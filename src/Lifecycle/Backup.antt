-- ===== src/Lifecycle/Backup.antt =====
-- The command `backup` of `ClickhouseBackup`. The managers of ch_backup/logic, the collection of
-- deduplication data, the lock and the server are operations that are given; those that fill the
-- metadata act on the object and on the rest of the world.
pub mod Outcome
pub mod Skipped
mod Tests
use Prim.Native.Char.{Char, code}
use ch_backup.Prelude.{
  ℕ, ◌+◌, leb, eqb, String, Bool, true, false, not, ◌&&◌, ◌||◌, ◌==◌, Option, none, some, List, [],
  ◌∷◌, ◌++◌, Dict, insert, keys, contains, keep, exists_in, if◌then◌else◌, Result, ok, err, Error,
  value_error, assertion_error, clickhouse_backup_error,
}
use ch_backup.Prelude as P
use ch_backup.Prelude.Int.{ℤ, pos}
use ch_backup.Sources.{BackupSources, schemas_included, schema_only}
use ch_backup.Metadata.{BackupMetadata, creating, created, failed}
use ch_backup.Dedup.References.{get_list}
use ch_backup.Lifecycle.Checks.{check_min_interval, check_schema_only_backup_skip_lock}
use ch_backup.Restore.Filter.{split_dot}
use ch_backup.Lifecycle.Exec.{Exec, carry_on, pure, raise, lift, ◌>>=◌, ◌>>◌}

-- What the constructor of `BackupMetadata` and the command read from the configuration.
pub record BackupConfig : Type 0 where
  pub path_of : String → String
  pub hostname : String
  -- the offset of `LOCAL_TZ` of ch_backup/util.py
  pub utc_offset : ℤ
  pub exclude_dbs : List String
  -- `min_interval` as seconds, `none` for an empty one
  pub min_interval : Option ℕ
  pub encryption_enabled : Bool
  pub keep_freezed_data_on_failure : Bool
  -- `skip_lock_for_schema_only["backup"]`
  pub skip_lock_for_schema_only : Option Bool

pub record Managers : Type 1 where
  pub State : Type 0
  pub get_backups : State → Result (List BackupMetadata)
  pub get_databases : List String → State → Result (List String)
  pub get_version : State → Result (Unit {0})
  -- `now()` and `utcnow()`
  pub clock : State → ℕ
  pub acquire : Bool → Exec State (Unit {0})
  pub release : Bool → Exec State (Unit {0})
  pub upload_backup_metadata : BackupMetadata → Exec State (Unit {0})
  pub access : Exec (BackupMetadata × State) (Unit {0})
  pub udf : Exec (BackupMetadata × State) (Unit {0})
  pub named_collections : Exec (BackupMetadata × State) (Unit {0})
  pub workload_entities : Exec (BackupMetadata × State) (Unit {0})
  -- the databases whose create statements are backed up
  pub databases : List String → Exec (BackupMetadata × State) (List String)
  pub collect_dedup_info :
      List BackupMetadata → List String → Exec (BackupMetadata × State) (Unit {0})
  pub tables : List String → Dict (List String) → Bool → Exec (BackupMetadata × State) (Unit {0})
  pub wait : Exec (BackupMetadata × State) (Unit {0})
  pub remove_freezed_data : Exec State (Unit {0})
  -- `f"{type(e).__name__}: {e}"`
  pub describe : Error → String

-- `table.split(".", 1)`, unpacked as two
abbrev pub unpack : String × Option String → Result (String × String)
unpack (name, none) = err value_error
unpack (name, some rest) = ok (name, rest)

-- `db_tables`
unfoldable pub group_tables : List String → Dict (List String) → Result (Dict (List String))
group_tables [] db_tables = ok db_tables
group_tables (table ∷ tables) db_tables = P.◌>>=◌ (unpack (split_dot table)) λ pair.
    group_tables tables (insert pair.0 (get_list pair.0 db_tables ++ (pair.1 ∷ [])) db_tables)

abbrev pub is_nil : {A : Type 0} → List A → Bool
is_nil [] = true
is_nil (x ∷ xs) = false

-- The arguments `db_names` and `tables`, where `none` is an absent one.
abbrev pub is_some_list : {A : Type 0} → Option (List A) → Bool
is_some_list none = false
is_some_list (some xs) = not (is_nil xs)

-- The names that the command is about, and `db_tables`.
unfoldable pub requested :
    Option (List String) → Option (List String) → Result (Option (List String) × Dict (List String))
requested db_names none = ok (db_names, [])
requested db_names (some []) = ok (db_names, [])
requested db_names (some (table ∷ tables)) =
    P.◌>>=◌ (group_tables (table ∷ tables) []) λ db_tables. ok (some (keys db_tables), db_tables)

abbrev pub pick : Option (List String) → List String → List String
pick none databases = databases
pick (some names) databases = keep (λ db. contains db names) databases

abbrev pub skip_message : String
skip_message = "Backup is skipped per backup.min_interval config option."

-- The metadata that the backup starts with.
abbrev pub new_metadata : BackupConfig → BackupSources → String → ℕ → BackupMetadata
new_metadata config sources name time = record {
  name = name;
  path = config.path_of name;
  hostname = config.hostname;
  start_time = record { instant = time; utc_offset = config.utc_offset };
  end_time = none;
  size = pos 0;
  real_size = pos 0;
  schema_only = schema_only sources;
  encrypted = config.encryption_enabled;
  state = creating;
  exception = none;
  databases = [];
  user_defined_functions = [];
  named_collections = [];
  workload_entities = [];
}

module _ (v : Managers) (config : BackupConfig) where
  abbrev pub World : Type 0
  World = BackupMetadata × v.State

  abbrev pub when : Bool → Exec World (Unit {0}) → Exec World (Unit {0})
  when test act = if test then act else pure tt

  abbrev pub set_created : Exec World (Unit {0})
  set_created w = (ok tt, (record w.0 { state = created }, w.1))

  -- Schemas and tables.
  pub back_up_schemas :
      BackupSources → List BackupMetadata → List String → Dict (List String) → Exec World (Unit {0})
  back_up_schemas sources lights databases db_tables = do
    databases' ← v.databases databases
    v.collect_dedup_info lights databases'
    v.tables databases' db_tables (schema_only sources)

  -- The steps of the `try` block, of which the last waits for the uploads.
  unfoldable pub back_up :
      BackupSources → List BackupMetadata → List String → Dict (List String) → Exec World (Unit {0})
  back_up sources lights databases db_tables = do
    when sources.access v.access
    when sources.udf v.udf
    when sources.named_collections v.named_collections
    when sources.workload_entities v.workload_entities
    when (schemas_included sources) (back_up_schemas sources lights databases db_tables)
    v.wait

  unfoldable pub try_backup :
      BackupSources → List BackupMetadata → List String → Dict (List String) → Exec World (Unit {0})
  try_backup sources lights databases db_tables = do
    back_up sources lights databases db_tables
    set_created

  -- The `except` block marks the object, and raises again.
  unfoldable pub after_error : Result (Unit {0}) → BackupMetadata → BackupMetadata
  after_error (ok a) backup = backup
  after_error (err e) backup = record backup { state = failed; exception = some (v.describe e) }

  -- The `finally` block; what it raises comes in place of the outcome of the rest.
  unfoldable pub finally_backup : BackupMetadata → Exec v.State (Unit {0})
  finally_backup backup s =
      (do
        v.upload_backup_metadata (record backup { end_time = some (v.clock s) })
        if config.keep_freezed_data_on_failure then pure tt else v.remove_freezed_data)
        s

  -- What the lock is held for.
  unfoldable pub locked :
      BackupSources
      → List BackupMetadata
      → List String
      → Dict (List String)
      → BackupMetadata
      → Exec v.State (Unit {0})
  locked sources lights databases db_tables backup = do
    v.upload_backup_metadata backup
    λ s1.
        let (r, w) = try_backup sources lights databases db_tables (backup, s1) in
        let (r', s2) = finally_backup (after_error r w.0) w.1 in carry_on r' (λ _. lift r) s2

  -- `with self._context.locker(...)`: the lock is released whatever happens.
  unfoldable pub with_lock : Bool → Exec v.State (Unit {0}) → Exec v.State (Unit {0})
  with_lock disabled body = do
    v.acquire disabled
    λ s1.
        let (r, s2) = body s1 in
        let (r', s3) = v.release disabled s2 in carry_on r' (λ _. lift r) s3

  abbrev pub Reply : Type 0
  Reply = String × Option String

  unfoldable pub start :
      BackupSources
      → String
      → List BackupMetadata
      → List String
      → Dict (List String)
      → Exec v.State Reply
  start sources name lights databases db_tables s =
      carry_on (v.get_version s)
        (λ _. do
          with_lock (check_schema_only_backup_skip_lock config.skip_lock_for_schema_only sources) (
              locked sources lights databases db_tables
                (new_metadata config sources name (v.clock s)))
          pure (name, none))
        s

  -- After the databases are known: the newest backup may be too recent.
  unfoldable pub unless_recent :
      BackupSources
      → String
      → Bool
      → List BackupMetadata
      → List String
      → Dict (List String)
      → Exec v.State Reply
  unless_recent sources name force [] databases db_tables s =
      start sources name [] databases db_tables s
  unless_recent sources name force (last_backup ∷ lights) databases db_tables s =
      if check_min_interval config.min_interval (v.clock s) last_backup force
      then start sources name (last_backup ∷ lights) databases db_tables s
      else pure (last_backup.name, some skip_message) s

  unfoldable pub backup :
      BackupSources
      → String
      → Option (List String)
      → Option (List String)
      → Bool
      → Exec v.State Reply
  backup sources name db_names tables force s =
      carry_on (v.get_backups s)
        (λ lights.
          if exists_in (λ m. name == m.name) lights
          then raise clickhouse_backup_error
          else if is_some_list db_names && is_some_list tables
          then raise assertion_error
          else do
            wanted ← lift (requested db_names tables)
            databases ← (λ s'. (v.get_databases config.exclude_dbs s', s'))
            unless_recent sources name force lights (pick wanted.0 databases) wanted.1)
        s
