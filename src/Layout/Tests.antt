-- ===== src/Layout/Tests.antt =====
-- The layout on a storage in memory.
use ch_backup.Prelude.{ℕ, ◌≡◌, refl, String, Bool, true, false, none, List, [], ◌∷◌, exists_in, ok}
use ch_backup.Paths.{join_path}
use ch_backup.Prelude.Int.{pos}
use ch_backup.Metadata.{BackupMetadata}
use ch_backup.Metadata.Samples.{old_backup}
use ch_backup.Lifecycle.Exec.{pure}
use ch_backup.Layout.Keys.{get_backup_path, backup_metadata_path, backup_light_metadata_path}
use ch_backup.Layout.Backups.{
  get_backup_names, get_backup, get_existing, retry, load_metadata, place, newest_first,
  get_backups,
}
use ch_backup.Layout.Texts.{leb_text}
use ch_backup.Layout.Backups.Order.{
  IsNewestFirst, started_at, nothing, present, get_backups-IsNewestFirst,
}
use ch_backup.Layout.Cloud.{Host, find_backup, get_cloud_storage_metadata}
use ch_backup.Layout.Cloud.Shadow.{get_cloud_storage_metadata-skips}
use ch_backup.Layout.Memory.{memory, settings, clock_text, is_same}

holds_memory : List String → String → Bool
holds_memory s file = exists_in (is_same file) s

get_backups-IsNewestFirst_example :
    (bs : List BackupMetadata) × (get_backups memory settings true
        ("ch_backup/old/backup_light_struct.json" ∷ [])
      ≡ ok bs)
    × IsNewestFirst clock_text bs
    × ((text : String)
        → started_at clock_text text bs ≡ started_at clock_text text (old_backup ∷ []))
unfolding get_backup_names get_backup get_existing retry load_metadata backup_metadata_path
    backup_light_metadata_path get_backup_path join_path
get_backups-IsNewestFirst_example =
    get_backups-IsNewestFirst memory settings true ("ch_backup/old/backup_light_struct.json" ∷ [])
      ("old" ∷ []) (old_backup ∷ []) refl (present "old" old_backup [] [] refl nothing)

-- An hour and two hours after midnight; the first reads as the third hour where it was written.
abbrev backup_at : ℕ → ℕ → BackupMetadata
backup_at instant offset = record old_backup {
  start_time = record { instant = instant; utc_offset = pos offset };
}

older_first :
    newest_first clock_text (backup_at 7200 0 ∷ backup_at 3600 7200 ∷ [])
    ≡ backup_at 3600 7200 ∷ backup_at 7200 0 ∷ []
unfolding newest_first place leb_text
older_first = refl

host : Host memory
host = record { open_file = λ path. pure tt; exists = λ path s. true }

get_cloud_storage_metadata-skips_example :
    get_cloud_storage_metadata memory settings host
      (λ m. record { encrypted = true; compressed = true })
      "old"
      "s3"
      "/var/lib/clickhouse/disks/s3"
      none
      ("ch_backup/old/backup_struct.json" ∷ [])
    ≡ (ok false, "ch_backup/old/backup_struct.json" ∷ [])
unfolding host find_backup get_backup get_existing retry load_metadata backup_metadata_path
    backup_light_metadata_path get_backup_path join_path
get_cloud_storage_metadata-skips_example =
    get_cloud_storage_metadata-skips memory settings host (λ path s h. refl)
      (λ m. record { encrypted = true; compressed = true }) "old" "s3"
      "/var/lib/clickhouse/disks/s3" old_backup ("ch_backup/old/backup_struct.json" ∷ []) refl refl
