-- ===== src/Layout/Refinement/Loads.antt =====
-- The documents that `BackupLayout` loads metadata from.
use ch_backup.Prelude.{
  Option, ◌≡◌, ◌≢◌, ◌⊎◌, ap, sym, ◌∙◌, inl, inr, String, Bool, true, false, List, [], ◌∷◌, All,
  arith, Result, ok, err, Error, crypto_error, ok-injective, >>=-eq-ok, Result-cases, none, some,
}
use ch_backup.Paths.Segments.{is_plain}
use ch_backup.Metadata.{BackupMetadata}
use ch_backup.Metadata.Backup.OwnNamed.{AreOwnNamed}
use ch_backup.Layout.Keys.{backup_light_metadata_path}
use ch_backup.Layout.Backend.{Backend, Settings, unless_crypto}
use ch_backup.Layout.Backups.{
  reload_backup, retry, load_metadata, get_backup, get_existing, get_backup_names, collect,
  get_backups, add_found,
}
use ch_backup.Layout.Backups.Order.{newest_first-All}
use ch_backup.Layout.Refinement.{is_part_name, Storage, OwnDocuments}

unless_crypto-ok : {A : Type 0} (r : Result A) (x : A) → unless_crypto r ≡ ok x → r ≡ ok x
unless_crypto-ok (ok a) x h = h
unless_crypto-ok (err e) x h = absurd (go e h)
  where
    go : {A : Type 0} {x : A} (e : Error) → unless_crypto (err e) ≢ ok x
    go e h = ground arith

-- Metadata that are loaded come from a document in the storage.
load_metadata-ok :
    (b : Backend) (config : Settings) (path : String) (encryption : Bool) (s : b.State)
    (m : BackupMetadata)
    → load_metadata b config path encryption s ≡ ok m
    → (text : String) × (b.download_data path encryption s ≡ ok text) × (b.load_json text ≡ ok m)
unfolding load_metadata
load_metadata-ok b config path encryption s m h = >>=-eq-ok _ _ (unless_crypto-ok _ m h)

retry-ok :
    (b : Backend) (config : Settings) (path : String) (s : b.State) (r : Result BackupMetadata)
    (m : BackupMetadata)
    → retry b config path s r ≡ ok m
    → (r ≡ ok m) ⊎ (load_metadata b config path false s ≡ ok m)
unfolding retry
retry-ok b config path s (ok m') m h = inl h
retry-ok b config path s (err crypto_error) m h = inr h
retry-ok b config path s (err e) m h = inl h

-- Both attempts to load metadata take a document at the path.
load-ok :
    (b : Backend) (config : Settings) (path : String) (encryption : Bool) (s : b.State)
    (m : BackupMetadata)
    → retry b config path s (load_metadata b config path encryption s) ≡ ok m
    → (text : String) × (used : Bool) × (b.download_data path used s ≡ ok text)
      × (b.load_json text ≡ ok m)
load-ok b config path encryption s m h =
    elim (retry-ok b config path s (load_metadata b config path encryption s) m h) [
      | inl first ↦
          let (text, got, loaded) = load_metadata-ok b config path encryption s m first in
          (text, encryption, got, loaded)
      | inr second ↦
          let (text, got, loaded) = load_metadata-ok b config path false s m second in
          (text, false, got, loaded)
    ]

module _ (b : Backend) (config : Settings) (storage : Storage b)
    (documents : OwnDocuments b config) where
  pub reload_keeps :
      (light m : BackupMetadata) (s : b.State)
      → is_plain light.name ≡ true
      → reload_backup b config false s light ≡ ok m
      → (m.name ≡ light.name) × AreOwnNamed is_part_name m.databases
  unfolding reload_backup
  reload_keeps light m s plain h =
      let (text, used, got, loaded) = load-ok b config _ true s m h in
      documents.full light.name text used m s plain got loaded

  get_backup-named :
      (name : String) (s : b.State) (m : BackupMetadata)
      → is_plain name ≡ true
      → get_backup b config true name s ≡ ok (some m)
      → m.name ≡ name
  unfolding get_backup get_existing
  get_backup-named name s m plain h =
      let path = backup_light_metadata_path config.path_root name in
      elim (Result-cases (b.path_exists path false s)) [
        | inr (e, failed) ↦ cc (rw (failed, get_backup) at h)
        | inl (false, absent) ↦ cc (rw (absent, get_backup, get_existing) at h)
        | inl (true, there) ↦
            let (m', read, same) =
              >>=-eq-ok (retry b config path s (load_metadata b config path false s)) _
                (rw (there, get_backup, get_existing) at h) in
            let (text, used, got, loaded) = load-ok b config path false s m' read in
            let e : m' ≡ m = cc same in
            ap (λ x. x.name) (sym e) ∙ documents.light name text used m' s plain got loaded
      ]

  collect-named :
      (names : List String) (s : b.State) (ms : List BackupMetadata)
      → All (λ name. is_plain name ≡ true) names
      → collect b config true names s ≡ ok ms
      → All (λ m. is_plain m.name ≡ true) ms
  unfolding collect
  collect-named [] s ms plain h = rw (← ok-injective h) tt
  collect-named (name ∷ names) s ms plain h =
      elim (Result-cases (get_backup b config true name s)) [
        | inr (e, failed) ↦ cc (rw (failed, collect) at h)
        | inl (found, got) ↦ elim (Result-cases (collect b config true names s)) [
          | inr (e, failed) ↦ cc (rw (got, failed, collect) at h)
          | inl (rest, later) ↦
              rw (← ok-injective (rw (got, later, collect) at h))
                (add found rest got (collect-named names s rest plain.1 later))
        ]
      ]
    where
      add :
          (found : Option BackupMetadata) (rest : List BackupMetadata)
          → get_backup b config true name s ≡ ok found
          → All (λ m. is_plain m.name ≡ true) rest
          → All (λ m. is_plain m.name ≡ true) (add_found found rest)
      add none rest got all = all
      add (some m) rest got all =
          (ap is_plain (get_backup-named name s m plain.0 got) ∙ plain.0, all)

  pub get_backups_named :
      (s : b.State) (ms : List BackupMetadata)
      → get_backups b config true s ≡ ok ms
      → All (λ m. is_plain m.name ≡ true) ms
  unfolding get_backups get_backup_names
  get_backups_named s ms h = elim (Result-cases (b.list_dir config.path_root false false s)) [
    | inr (e, failed) ↦ cc (rw (failed, get_backups) at h)
    | inl (names, listed) ↦ elim (Result-cases (collect b config true names s)) [
      | inr (e, failed) ↦ cc (rw (listed, failed, get_backups) at h)
      | inl (found, got) ↦ rw (← ok-injective (rw (listed, got, get_backups) at h)) (
          newest_first-All b.isoformat _ found (
            collect-named names s found (storage.list_dir_names config.path_root s names listed)
              got))
    ]
  ]
