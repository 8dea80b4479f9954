-- ===== src/Lifecycle/Backup/Skipped.antt =====
-- The replies of `backup` that have a message.
use ch_backup.Prelude.{
  ℕ, ◌+◌, ◌<◌, ◌≡◌, refl, ap, sym, inl, inr, String, Bool, true, false, ◌&&◌, ◌==◌, Option, some,
  List, [], ◌∷◌, Dict, ok, Result-cases, Bool-cases, Option-cases, ok-injective, exists_in, arith,
}
use ch_backup.Sources.{BackupSources}
use ch_backup.Metadata.{BackupMetadata}
use ch_backup.Lifecycle.Checks.{check_min_interval, check_schema_only_backup_skip_lock}
use ch_backup.Lifecycle.Backup.{
  Managers, BackupConfig, locked, with_lock, start, unless_recent, backup, new_metadata,
  is_some_list, requested, pick,
}

-- The backup ended less than the minimal interval ago.
abbrev pub IsRecent : BackupConfig → ℕ → BackupMetadata → Type 0
IsRecent config time m =
    (end_time : ℕ) × (seconds : ℕ) × (m.end_time ≡ some end_time)
    × (config.min_interval ≡ some seconds)
    × (time < end_time + seconds)

check_min_interval-IsRecent :
    (config : BackupConfig) (time : ℕ) (m : BackupMetadata) (force : Bool)
    → check_min_interval config.min_interval time m force ≡ false
    → (force ≡ false) × IsRecent config time m
unfolding check_min_interval
check_min_interval-IsRecent config time m true h = cc h
check_min_interval-IsRecent config time m false h = elim (Option-cases config.min_interval) [
  | inl unset ↦ absurd (cc (rw (unset, check_min_interval) at h))
  | inr (seconds, set) ↦ elim (Option-cases m.end_time) [
    | inl running ↦ absurd (cc (rw (set, running, check_min_interval) at h))
    | inr (end_time, ended) ↦ (
      refl,
      (end_time, seconds, ended, set, ground (arith, rw (set, ended, check_min_interval) at h)),
    )
  ]
]

module _ (v : Managers) (config : BackupConfig) where
  -- A backup that is started replies with no message.
  start-none :
      (sources : BackupSources) (name : String) (lights : List BackupMetadata)
      (databases : List String) (db_tables : Dict (List String)) (s : v.State) (n msg : String)
      → (start v config sources name lights databases db_tables s).0 ≡ ok (n, some msg)
      → ⊥
  unfolding start
  start-none sources name lights databases db_tables s n msg h =
      let disabled = check_schema_only_backup_skip_lock config.skip_lock_for_schema_only sources in
      let m = new_metadata config sources name (v.clock s) in
      elim (Result-cases (v.get_version s)) [
        | inr (e, failed) ↦ cc (rw (failed, start) at h)
        | inl (u, known) ↦
            elim (Result-cases
              (with_lock v config disabled (locked v config sources lights databases db_tables m)
                s).0) [
                  | inr (e, failed) ↦ cc (rw (known, start, failed) at h)
                  | inl (u', done) ↦ cc (rw (known, start, done) at h)
                ]
      ]

  -- What a skipped backup says of the newest one.
  Skips : List BackupMetadata → v.State → Bool → String → Type 0
  Skips lights s force n =
      (last : BackupMetadata) × (rest : List BackupMetadata) × (lights ≡ last ∷ rest)
      × (n ≡ last.name)
      × (force ≡ false)
      × IsRecent config (v.clock s) last

  unless_recent-Skips :
      (sources : BackupSources) (name : String) (force : Bool) (lights : List BackupMetadata)
      (databases : List String) (db_tables : Dict (List String)) (s : v.State) (n msg : String)
      → (unless_recent v config sources name force lights databases db_tables s).0
        ≡ ok (n, some msg)
      → ((unless_recent v config sources name force lights databases db_tables s).1 ≡ s)
        × Skips lights s force n
  unfolding unless_recent Skips
  unless_recent-Skips sources name force [] databases db_tables s n msg h =
      absurd (start-none sources name [] databases db_tables s n msg h)
  unless_recent-Skips sources name force (last ∷ rest) databases db_tables s n msg h =
      elim (Bool-cases (check_min_interval config.min_interval (v.clock s) last force)) [
        | inl due ↦ absurd (
            start-none sources name (last ∷ rest) databases db_tables s n msg
              (rw (due, unless_recent) at h))
        | inr recent ↦
            let (unforced, ended) =
              check_min_interval-IsRecent config (v.clock s) last force recent in
            let same = ok-injective (rw (recent, unless_recent) at h) in
            rw (recent, unless_recent)
              (refl, (last, rest, refl, ap (λ p. p.0) (sym same), unforced, ended))
      ]

  -- The backup command replies with a message only if it is not forced and the newest backup ended
  -- less than the minimal interval ago; it then names that backup and changes nothing.
  pub backup-skipped :
      (sources : BackupSources) (name : String) (db_names tables : Option (List String))
      (force : Bool) (s : v.State) (n msg : String)
      → (backup v config sources name db_names tables force s).0 ≡ ok (n, some msg)
      → ((backup v config sources name db_names tables force s).1 ≡ s)
        × (last : BackupMetadata) × (rest : List BackupMetadata) × (v.get_backups s
            ≡ ok (last ∷ rest))
        × (n ≡ last.name)
        × (force ≡ false)
        × IsRecent config (v.clock s) last
  unfolding backup Skips
  backup-skipped sources name db_names tables force s n msg h =
      elim (Result-cases (v.get_backups s)) [
        | inr (e, failed) ↦ absurd (cc (rw (failed, backup) at h))
        | inl (lights, got) ↦ elim (Bool-cases (exists_in (λ m. name == m.name) lights)) [
          | inl taken ↦ absurd (cc (rw (got, taken, backup) at h))
          | inr free ↦ elim (Bool-cases (is_some_list db_names && is_some_list tables)) [
            | inl both ↦ absurd (cc (rw (got, free, both, backup) at h))
            | inr one ↦ elim (Result-cases (requested db_names tables)) [
              | inr (e, failed) ↦ absurd (cc (rw (got, free, one, failed, backup) at h))
              | inl (wanted, asked) ↦ elim (Result-cases (v.get_databases config.exclude_dbs s)) [
                | inr (e, failed) ↦ absurd (cc (rw (got, free, one, asked, failed, backup) at h))
                | inl (databases, listed) ↦
                    let (same, (last, rest, newest, named, unforced, ended)) =
                      unless_recent-Skips sources name force lights (pick wanted.0 databases)
                        wanted.1 s n msg (rw (got, free, one, asked, listed, backup) at h) in
                    rw (got, free, one, asked, listed, backup)
                      (same, last, rest, ap ok newest, named, unforced, ended)
              ]
            ]
          ]
        ]
      ]
