-- ===== src/Layout/Backend.antt =====
-- What `BackupLayout` works on: the methods of `StorageLoader` (ch_backup/storage/loader.py), the
-- files of the host, the JSON of the metadata and the encodings of text. The callbacks that some
-- transfers take, which report progress, are left out.
use ch_backup.Prelude.{ℕ, String, Bool, List, Option, Result, ok, err, crypto_error, storage_error}
use ch_backup.Metadata.{DateTime, BackupMetadata}
use ch_backup.Lifecycle.Exec.{Exec}

abbrev pub Bytes : Type 0
Bytes = List ℕ

-- The keyword arguments of a transfer.
pub record Options : Type 0 where
  pub is_async : Bool
  pub encryption : Bool
  pub compression : Bool
  pub delete : Bool

pub record Backend : Type 1 where
  pub State : Type 0
  -- `StorageLoader`: data (text, encoded there, or bytes), then the remote path
  pub upload_data : String → String → Bool → Exec State (Unit {0})
  pub upload_data_tarball : List String → List Bytes → String → Options → Exec State (Unit {0})
  -- the local path, then the remote one
  pub upload_file : String → String → Bool → Exec State (Unit {0})
  pub upload_files_tarball : String → String → List String → Options → Exec State (Unit {0})
  -- the directory, the remote path, `tar_base_dir` and the names to leave out
  pub upload_files_tarball_scan :
      String → String → String → List String → Options → Exec State (Unit {0})
  -- decoded as UTF-8, and with `encoding=None`
  pub download_data : String → Bool → State → Result String
  pub download_bytes : String → Bool → State → Result Bytes
  pub download_data_tarball : String → Bool → State → Result (List (String × Bytes))
  pub download_file : String → String → Options → Exec State (Unit {0})
  pub download_files : String → String → Options → Exec State (Unit {0})
  -- `is_async=True`
  pub delete_files : List String → Exec State (Unit {0})
  -- `keep_going`
  pub wait : Bool → Exec State (Unit {0})
  -- `recursive` and `absolute`
  pub list_dir : String → Bool → Bool → State → Result (List String)
  -- `is_dir`
  pub path_exists : String → Bool → State → Result Bool
  pub get_file_size : String → State → Result ℕ
  -- the host: `Path.read_bytes`, where `none` is an `OSError`
  pub read_bytes : String → State → Option Bytes
  pub write_text : String → String → Exec State (Unit {0})
  pub makedirs : String → Exec State (Unit {0})
  pub dir_is_empty : String → List String → State → Result Bool
  -- `dump_json(light)` and `load_json` of `BackupMetadata`
  pub dump_json : Bool → BackupMetadata → String
  pub load_json : String → Result BackupMetadata
  -- `datetime.isoformat`
  pub isoformat : DateTime → String
  -- UTF-8 with `errors="surrogateescape"`, and without
  pub encode_text : String → Bytes
  pub decode_text : Bytes → String
  pub decode_strict : Bytes → Result String

-- What the constructor of `BackupLayout` reads from the configuration.
pub record Settings : Type 0 where
  pub path_root : String
  pub access_control_path : String
  pub metadata_path : String
  pub named_collections_path : String
  pub workload_path : String
  pub encryption_chunk_size : ℕ
  pub encryption_metadata_size : ℕ

-- `except Exception as e: raise StorageError(msg) from e`
abbrev pub storage_error_of {ℓ} : {A : Type ℓ} → Result A → Result A
storage_error_of (ok a) = ok a
storage_error_of (err e) = err storage_error

abbrev pub or_storage_error : {S A : Type 0} → Exec S A → Exec S A
or_storage_error act s = let (r, s') = act s in (storage_error_of r, s')

-- the same, after `except CryptoError: raise`
abbrev pub unless_crypto {ℓ} : {A : Type ℓ} → Result A → Result A
unless_crypto (ok a) = ok a
unless_crypto (err crypto_error) = err crypto_error
unless_crypto (err e) = err storage_error

-- a step that only reads
abbrev pub read : {S A : Type 0} → (S → Result A) → Exec S A
read f s = (f s, s)
