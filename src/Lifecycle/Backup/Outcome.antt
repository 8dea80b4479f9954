-- ===== src/Lifecycle/Backup/Outcome.antt =====
-- The metadata that `backup` leaves in the storage.
use ch_backup.Prelude.{
  ℕ, ◌≡◌, refl, ◌∙◌, inl, inr, String, Bool, Option, none, some, List, Dict, ok, err, Result,
  Result-cases, Bool-cases,
}
use ch_backup.Sources.{BackupSources}
use ch_backup.Metadata.{BackupMetadata, created, failed}
use ch_backup.Lifecycle.Checks.{check_schema_only_backup_skip_lock}
use ch_backup.Lifecycle.Exec.{Exec, carry_on, pure, ◌>>=◌}
use ch_backup.Lifecycle.Backup.{
  Managers, BackupConfig, World, back_up, try_backup, after_error, finally_backup, locked,
  with_lock, start, new_metadata, set_created,
}

-- What metadata say of an outcome.
abbrev pub Tells : Managers → BackupMetadata → Result (Unit {0}) → Type 0
Tells v m (ok a) = m.state ≡ created
Tells v m (err e) = (m.state ≡ failed) × (m.exception ≡ some (v.describe e))

-- The reply of the command, without the name.
abbrev pub outcome : Result (String × Option String) → Result (Unit {0})
outcome (ok reply) = ok tt
outcome (err e) = err e

-- What holds after the last step of a block that returns.
module _ {S : Type 0} (P : S → Type 0) where
  Ends : Exec S (Unit {0}) → Type 0
  Ends act = (s : S) → (act s).0 ≡ ok tt → P (act s).1

  Ends-bind :
      {A : Type 0} (act : Exec S A) (next : A → Exec S (Unit {0}))
      → ((a : A) → Ends (next a))
      → Ends (act >>= next)
  unfolding Ends
  Ends-bind act next k s h = elim (Result-cases (act s).0) [
    | inl (a, done) ↦ rw done (k a (act s).1 (rw done at h))
    | inr (e, raised) ↦ absurd (cc (rw raised at h))
  ]

module _ (v : Managers) (config : BackupConfig)
    -- the metadata of the backup that the storage has
    (stored : v.State → Option BackupMetadata)
    (uploads : (m : BackupMetadata) (s : v.State)
      → ((v.upload_backup_metadata m s).0 ≡ ok tt)
        × (stored (v.upload_backup_metadata m s).1 ≡ some m))
    (removes : (s : v.State)
      → ((v.remove_freezed_data s).0 ≡ ok tt) × (stored (v.remove_freezed_data s).1 ≡ stored s))
    (acquires : (disabled : Bool) (s : v.State) → (v.acquire disabled s).0 ≡ ok tt)
    (releases : (disabled : Bool) (s : v.State)
      → ((v.release disabled s).0 ≡ ok tt) × (stored (v.release disabled s).1 ≡ stored s)) where
  Created : World v config → Type 0
  Created w = w.0.state ≡ created

  try_backup-Created :
      (sources : BackupSources) (lights : List BackupMetadata) (databases : List String)
      (db_tables : Dict (List String))
      → Ends Created (try_backup v config sources lights databases db_tables)
  unfolding try_backup Created Ends
  try_backup-Created sources lights databases db_tables =
      Ends-bind Created (back_up v config sources lights databases db_tables)
        (λ _. set_created v config) λ _ w h. refl

  -- What is stored, and what it tells of an outcome.
  Stored : Result (Unit {0}) → v.State → Type 0
  Stored r s = (m : BackupMetadata) × (stored s ≡ some m) × Tells v m r

  -- The uploads of the `finally` block, and what comes after.
  finally_backup-stored :
      (m : BackupMetadata) (s : v.State)
      → ((finally_backup v config m s).0 ≡ ok tt)
        × (stored (finally_backup v config m s).1 ≡ some (record m { end_time = some (v.clock s) }))
  unfolding finally_backup
  finally_backup-stored m s =
      let m' : BackupMetadata = record m { end_time = some (v.clock s) } in
      let (returned, there) = uploads m' s in
      elim (Bool-cases config.keep_freezed_data_on_failure) [
        | inl kept ↦ rw (returned, kept, finally_backup) (refl, there)
        | inr removed ↦
            let (gone, same) = removes (v.upload_backup_metadata m' s).1 in
            rw (returned, removed, finally_backup) (gone, same ∙ there)
      ]

  Tells-after :
      (r : Result (Unit {0})) (m : BackupMetadata) (time : ℕ)
      → (r ≡ ok tt → m.state ≡ created)
      → Tells v (record (after_error v config r m) { end_time = some time }) r
  unfolding after_error
  Tells-after (ok a) m time done = done refl
  Tells-after (err e) m time done = (refl, refl)

  locked-Stored :
      (sources : BackupSources) (lights : List BackupMetadata) (databases : List String)
      (db_tables : Dict (List String)) (m : BackupMetadata) (s : v.State)
      → Stored
          (locked v config sources lights databases db_tables m s).0
          (locked v config sources lights databases db_tables m s).1
  unfolding locked Stored Ends Created
  locked-Stored sources lights databases db_tables m s =
      let s1 = (v.upload_backup_metadata m s).1 in
      let (r, w) = try_backup v config sources lights databases db_tables (m, s1) in
      let (returned, there) = finally_backup-stored (after_error v config r w.0) w.1 in
      rw (locked, (uploads m s).0, returned)
        (
          record (after_error v config r w.0) { end_time = some (v.clock w.1) },
          there,
          Tells-after r w.0 (v.clock w.1)
              (try_backup-Created sources lights databases db_tables (m, s1)),
        )

  with_lock-Stored :
      (disabled : Bool) (body : Exec v.State (Unit {0})) (s : v.State)
      → ((s1 : v.State) → Stored (body s1).0 (body s1).1)
      → Stored (with_lock v config disabled body s).0 (with_lock v config disabled body s).1
  unfolding with_lock Stored
  with_lock-Stored disabled body s k =
      let s1 = (v.acquire disabled s).1 in
      let (m, there, tells) = k s1 in
      let (returned, same) = releases disabled (body s1).1 in
      rw (with_lock, acquires disabled s, returned) (m, same ∙ there, tells)

  pass :
      (name : String) (r : Result (Unit {0})) (s1 : v.State)
      → Stored r s1
      → (m : BackupMetadata) × (stored
            (carry_on {S = v.State} {A = Unit {0}} {B = String × Option String} r
              (λ _. pure (name, none))
              s1).1
          ≡ some m)
        × Tells v m (
            outcome
              (carry_on {S = v.State} {A = Unit {0}} {B = String × Option String} r
                (λ _. pure (name, none))
                s1).0)
  unfolding Stored
  pass name (ok a) s1 h = h
  pass name (err e) s1 h = h

  -- The metadata that a started backup leaves in the storage are in the state created if it
  -- returns, and in the state failed with the text of the exception if it raises, where the server
  -- tells its version, the lock is taken and released, the uploads of metadata succeed and are what
  -- is stored, and the removal of frozen data succeeds.
  pub start-stored :
      (sources : BackupSources) (name : String) (lights : List BackupMetadata)
      (databases : List String) (db_tables : Dict (List String)) (s : v.State)
      → v.get_version s ≡ ok tt
      → (m : BackupMetadata) × (stored (start v config sources name lights databases db_tables s).1
          ≡ some m)
        × Tells v m (outcome (start v config sources name lights databases db_tables s).0)
  unfolding start Stored
  start-stored sources name lights databases db_tables s version =
      let disabled = check_schema_only_backup_skip_lock config.skip_lock_for_schema_only sources in
      let body =
        locked v config sources lights databases db_tables
          (new_metadata config sources name (v.clock s)) in
      rw (start, version)
        (pass name (with_lock v config disabled body s).0 (with_lock v config disabled body s).1 (
          with_lock-Stored disabled body s (
            locked-Stored sources lights databases db_tables
              (new_metadata config sources name (v.clock s)))))
