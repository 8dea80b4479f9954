-- ===== src/Lifecycle/Checks.antt =====
-- The tests of `ClickhouseBackup` before a backup is made, and `list`. An interval of the
-- configuration is the seconds of its `timedelta`, with `none` for a missing or an empty one.
use ch_backup.Prelude.{
  ℕ, ◌+◌, Bool, true, false, not, leb, Option, none, some, List, keep, if◌then◌else◌, Result, ok,
  ◌>>=◌,
}
use ch_backup.Metadata.{
  BackupMetadata, BackupState, created, creating, deleting, partially_deleted, failed,
}
use ch_backup.Sources.{BackupSources, schema_only}
use ch_backup.Lifecycle.Services.{Services}

-- `_check_min_interval`, with `utcnow()` given
unfoldable pub check_min_interval : Option ℕ → ℕ → BackupMetadata → Bool → Bool
check_min_interval min_interval now last_backup force = if force then true else elim min_interval [
  | none ↦ true
  | some seconds ↦ elim last_backup.end_time [
    | none ↦ true
    | some end_time ↦ leb (end_time + seconds) now
  ]
]

-- `_check_schema_only_backup_skip_lock`, of the setting `backup` of `skip_lock_for_schema_only`
unfoldable pub check_schema_only_backup_skip_lock : Option Bool → BackupSources → Bool
check_schema_only_backup_skip_lock skip_lock sources =
    if not (schema_only sources)
    then false
    else elim skip_lock [ none ↦ false | some backup ↦ backup ]

abbrev pub is_state : BackupState → BackupState → Bool
is_state created created = true
is_state creating creating = true
is_state deleting deleting = true
is_state partially_deleted partially_deleted = true
is_state failed failed = true
is_state _ _ = false

-- `list`
module _ (v : Services) where
  pub list : Option BackupState → v.State → Result (List BackupMetadata)
  list state s = do
    backups ← v.get_backups s
    ok (elim state [ none ↦ backups | some wanted ↦ keep (λ b. is_state b.state wanted) backups ])
