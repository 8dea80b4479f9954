-- ===== src/Layout/Backups.antt =====
-- The metadata of the backups, as `BackupLayout` lists and loads it.
pub mod Order
use ch_backup.Prelude.{
  ℕ, leb, String, Bool, true, false, not, Option, none, some, List, [], ◌∷◌, if◌then◌else◌, Result,
  ok, err, Error, crypto_error, ◌>>=◌,
}
use ch_backup.Metadata.{DateTime, BackupMetadata}
use ch_backup.Layout.Texts.{leb_text}
use ch_backup.Layout.Keys.{backup_metadata_path, backup_light_metadata_path}
use ch_backup.Layout.Backend.{Backend, Settings, unless_crypto}

-- `sorted(backups, key=lambda b: b.start_time.isoformat(), reverse=True)`: the texts are compared, and
-- backups with one text keep their order
module _ (isoformat : DateTime → String) where
  abbrev pub is_not_after : BackupMetadata → BackupMetadata → Bool
  is_not_after x m = leb_text (isoformat x.start_time) (isoformat m.start_time)

  unfoldable pub place : BackupMetadata → List BackupMetadata → List BackupMetadata
  place m [] = m ∷ []
  place m (x ∷ xs) = let rest = place m xs in if is_not_after x m then m ∷ x ∷ xs else x ∷ rest

  unfoldable pub newest_first : List BackupMetadata → List BackupMetadata
  newest_first [] = []
  newest_first (m ∷ ms) = place m (newest_first ms)

abbrev pub add_found : Option BackupMetadata → List BackupMetadata → List BackupMetadata
add_found none ms = ms
add_found (some m) ms = m ∷ ms

module _ (b : Backend) (config : Settings) where
  unfoldable pub get_backup_names : b.State → Result (List String)
  get_backup_names s = b.list_dir config.path_root false false s

  -- `_load_metadata`
  unfoldable pub load_metadata : String → Bool → b.State → Result BackupMetadata
  load_metadata path encryption s =
      unless_crypto do text ← b.download_data path encryption s; b.load_json text

  -- The retry of metadata that is old and not encrypted.
  unfoldable pub retry : String → b.State → Result BackupMetadata → Result BackupMetadata
  retry path s (err crypto_error) = load_metadata path false s
  retry path s r = r

  abbrev pub metadata_path : Bool → String → String
  metadata_path use_light_meta name =
      if use_light_meta
      then backup_light_metadata_path config.path_root name
      else backup_metadata_path config.path_root name

  unfoldable pub reload_backup : Bool → b.State → BackupMetadata → Result BackupMetadata
  reload_backup use_light_meta s backup =
      let path = metadata_path use_light_meta backup.name in
      retry path s (load_metadata path (not use_light_meta) s)

  unfoldable pub get_existing : Bool → String → b.State → Bool → Result (Option BackupMetadata)
  get_existing use_light_meta path s false = ok none
  get_existing use_light_meta path s true = do
    m ← retry path s (load_metadata path (not use_light_meta) s)
    ok (some m)

  unfoldable pub get_backup : Bool → String → b.State → Result (Option BackupMetadata)
  get_backup use_light_meta backup_name s = do
    let path = metadata_path use_light_meta backup_name
    there ← b.path_exists path false s
    get_existing use_light_meta path s there

  -- The loop of `get_backups`.
  unfoldable pub collect : Bool → List String → b.State → Result (List BackupMetadata)
  collect use_light_meta [] s = ok []
  collect use_light_meta (name ∷ names) s = do
    found ← get_backup use_light_meta name s
    rest ← collect use_light_meta names s
    ok (add_found found rest)

  unfoldable pub get_backups : Bool → b.State → Result (List BackupMetadata)
  get_backups use_light_meta s = do
    names ← get_backup_names s
    found ← collect use_light_meta names s
    ok (newest_first b.isoformat found)
