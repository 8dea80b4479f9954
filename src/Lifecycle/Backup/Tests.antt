-- ===== src/Lifecycle/Backup/Tests.antt =====
-- The command `backup` on managers in memory: the storage is the list of the uploads, and the backup
-- of the tables fails.
use ch_backup.Prelude.{
  ◌≡◌, refl, String, true, false, Option, none, some, List, [], ◌∷◌, ok, clickhouse_error, insert,
  lookup,
}
use ch_backup.Sources.{BackupSources}
use ch_backup.Prelude.Int.{pos}
use ch_backup.Metadata.{BackupMetadata}
use ch_backup.Metadata.Samples.{old_backup}
use ch_backup.Dedup.References.{get_list}
use ch_backup.Lifecycle.Checks.{check_min_interval}
use ch_backup.Restore.Filter.{split_dot}
use ch_backup.Lifecycle.Exec.{pure, raise}
use ch_backup.Lifecycle.Backup.{
  Managers, BackupConfig, start, backup, unless_recent, requested, skip_message, group_tables,
  split_dot,
}
use ch_backup.Lifecycle.Backup.Outcome.{Tells, outcome, start-stored}
use ch_backup.Lifecycle.Backup.Skipped.{IsRecent, backup-skipped}

abbrev newest : List BackupMetadata → Option BackupMetadata
newest [] = none
newest (m ∷ ms) = some m

abbrev managers : Managers
managers = record {
  State = List BackupMetadata;
  get_backups = λ s. ok s;
  get_databases = λ excluded s. ok ("db" ∷ []);
  get_version = λ s. ok tt;
  clock = λ s. 200;
  acquire = λ disabled. pure tt;
  release = λ disabled. pure tt;
  upload_backup_metadata = λ m s. (ok tt, m ∷ s);
  access = pure tt;
  udf = pure tt;
  named_collections = pure tt;
  workload_entities = pure tt;
  databases = λ names. pure names;
  collect_dedup_info = λ lights names. pure tt;
  tables = λ names db_tables only. raise clickhouse_error;
  wait = pure tt;
  remove_freezed_data = pure tt;
  describe = λ e. "ClickhouseError: no";
}

abbrev config : BackupConfig
config = record {
  path_of = λ name. name;
  hostname = "host";
  utc_offset = pos 10800;
  exclude_dbs = [];
  min_interval = some 3600;
  encryption_enabled = true;
  keep_freezed_data_on_failure = false;
  skip_lock_for_schema_only = none;
}

abbrev all_sources : BackupSources
all_sources = record {
  access = true;
  table_data = true;
  schema = true;
  udf = true;
  named_collections = true;
  workload_entities = true;
}

start-stored_example :
    (m : BackupMetadata) × (newest (start managers config all_sources "new" [] ("db" ∷ []) [] []).1
      ≡ some m)
    × Tells managers m (outcome (start managers config all_sources "new" [] ("db" ∷ []) [] []).0)
start-stored_example =
    start-stored managers config newest (λ m s. (refl, refl)) (λ s. (refl, refl))
      (λ disabled s. refl) (λ disabled s. (refl, refl)) all_sources "new" [] ("db" ∷ []) [] [] refl

backup-skipped_example :
    ((backup managers config all_sources "new" none none false (old_backup ∷ [])).1
      ≡ old_backup ∷ [])
    × (last : BackupMetadata) × (rest : List BackupMetadata) × (ok (old_backup ∷ [])
        ≡ ok (last ∷ rest))
    × (◌≡◌ {A = String} "old" last.name)
    × (false ≡ false)
    × IsRecent config 200 last
unfolding backup unless_recent check_min_interval requested
backup-skipped_example =
    backup-skipped managers config all_sources "new" none none false (old_backup ∷ []) "old"
      skip_message refl

-- `db_tables` keeps the tables of a database together.
group_tables_shop :
    group_tables ("shop.orders" ∷ "crm.users" ∷ "shop.a.b" ∷ []) []
    ≡ ok (("shop", "orders" ∷ "a.b" ∷ []) ∷ ("crm", "users" ∷ []) ∷ [])
unfolding group_tables split_dot insert get_list lookup
group_tables_shop = refl
