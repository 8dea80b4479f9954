-- ===== src/Layout/Cloud/Shadow.antt =====
-- `get_cloud_storage_metadata` of `ClickhouseBackup` without a local path.
use ch_backup.Prelude.{◌≡◌, refl, String, true, false, none, ok}
use ch_backup.Metadata.{BackupMetadata}
use ch_backup.Layout.Keys.{join3}
use ch_backup.Layout.Backend.{Backend, Settings}
use ch_backup.Layout.Upload.{sanitize}
use ch_backup.Layout.Cloud.{
  Host, CloudStorage, get_dst, cloud_storage_metadata_exists, find_backup,
  get_cloud_storage_metadata,
}

module _ (b : Backend) (config : Settings) (host : Host b)
    -- a directory is there once it is made
    (makedirs-exists : (path : String) (s : b.State)
      → (b.makedirs path s).0 ≡ ok tt
      → host.exists path (b.makedirs path s).1 ≡ true)
    (cloud_of : BackupMetadata → CloudStorage) where
  -- Without a local path, get_cloud_storage_metadata replies that the metadata of a readable backup
  -- are there already and downloads nothing: all it does is make the directory, where that succeeds
  -- and a directory exists once it is made.
  pub get_cloud_storage_metadata-skips :
      (backup_name disk_name disk_path : String) (m : BackupMetadata) (s : b.State)
      → find_backup b config host backup_name false s ≡ ok m
      → (b.makedirs (join3 disk_path "shadow" (sanitize m.name)) s).0 ≡ ok tt
      → get_cloud_storage_metadata b config host cloud_of backup_name disk_name disk_path none s
        ≡ (ok false, (b.makedirs (join3 disk_path "shadow" (sanitize m.name)) s).1)
  unfolding get_cloud_storage_metadata cloud_storage_metadata_exists get_dst
  get_cloud_storage_metadata-skips backup_name disk_name disk_path m s found made =
      rw
        (
          get_cloud_storage_metadata,
          found,
          cloud_storage_metadata_exists,
          get_dst,
          made,
          makedirs-exists (join3 disk_path "shadow" (sanitize m.name)) s made,
        )
        refl
