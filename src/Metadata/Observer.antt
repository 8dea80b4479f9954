-- ===== src/Metadata/Observer.antt =====
-- `UploadPartObserver` of ch_backup/logic/upload_part_observer.py: each uploaded part goes into the
-- metadata of the backup, which are uploaded from time to time. `upload_backup_metadata` is that of
-- the storage; the times are those that `time.time()` returns.
pub mod Counted
use ch_backup.Prelude.{
  ℕ, ◌+◌, ◌-◌, ◌≡◌, refl, sym, ap, ◌∙◌, inl, inr, Bool, true, false, Bool-cases, arith, leb, List,
  [], ◌∷◌, ◌++◌, if◌then◌else◌, Result, ok, err, append_assoc, Result-cases, ok-injective,
  append-nil,
}
use ch_backup.Metadata.{PartMetadata, BackupMetadata}
use ch_backup.Metadata.Backup.{add_part}

-- `uploads` are the metadata that have been uploaded.
pub record UploadPartObserver : Type 0 where
  pub backup_meta : BackupMetadata
  pub last_time : ℕ
  pub uploaded_parts : List PartMetadata
  pub interval : ℕ
  pub uploads : List BackupMetadata

-- `__call__`: the part is in the list of uploaded parts even where `add_part` raises.
pub observe : ℕ → PartMetadata → UploadPartObserver → Result (Unit {0}) × UploadPartObserver
observe now part o =
    let listed = record o { uploaded_parts = o.uploaded_parts ++ (part ∷ []) } in
    elim (add_part part o.backup_meta) [
      | err e ↦ (err e, listed)
      | ok m ↦
          (let added = record listed { backup_meta = m } in
            (
              ok tt,
              if leb (o.last_time + o.interval) now
                  then record added { uploads = o.uploads ++ (m ∷ []); last_time = now }
                  else added,
            ))
    ]

-- The parts of a backup, each with the time at which it has been uploaded.
pub observe_all :
    List (ℕ × PartMetadata) → UploadPartObserver → Result (Unit {0}) × UploadPartObserver
observe_all [] o = (ok tt, o)
observe_all ((now, part) ∷ rest) o =
    let (r, o') = observe now part o in
    elim r [ err e ↦ (err e, o') | ok done ↦ observe_all rest o' ]
