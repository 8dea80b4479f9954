-- ===== src/Layout/Memory.antt =====
-- A storage in memory, for the examples: the paths of its files. The metadata of one backup are
-- there, and the transfers write nothing but paths.
use Prim.Native.Char.{code}
use Prim.Native.String.{◌++◌}
use ch_backup.Prelude.{
  ℕ, ◌+◌, ◌/◌, String, Bool, true, false, not, ◌&&◌, ◌||◌, ◌==◌, eqb, Option, none, some, List, [],
  ◌∷◌, map, keep, exists_in, if◌then◌else◌, Result, ok, err, storage_error,
}
use ch_backup.Paths.{lstrip_slash, rstrip_slash}
use ch_backup.Prelude.Int.{pos_part}
use ch_backup.Metadata.{DateTime}
use ch_backup.Metadata.Samples.{old_backup}
use ch_backup.Lifecycle.Exec.{Exec, pure}
use ch_backup.Layout.Keys.{backup_metadata_path, backup_light_metadata_path}
use ch_backup.Layout.Backend.{Backend, Settings}

abbrev pub settings : Settings
settings = record {
  path_root = "ch_backup/";
  access_control_path = "/var/lib/clickhouse/access";
  metadata_path = "/var/lib/clickhouse/metadata";
  named_collections_path = "/var/lib/clickhouse/named_collections";
  workload_path = "/var/lib/clickhouse/workload";
  encryption_chunk_size = 8388608;
  encryption_metadata_size = 40;
}

abbrev pub strip_prefix : String → String → Option String
strip_prefix String.[] f = some f
strip_prefix (String.◌∷◌ c p) String.[] = none
strip_prefix (String.◌∷◌ c p) (String.◌∷◌ d f) =
    let rest = strip_prefix p f in if eqb (code c) (code d) then rest else none

-- What follows a prefix in the files that have it.
abbrev pub behind : String → List String → List String
behind p [] = []
behind p (f ∷ fs) =
    let rest = behind p fs in elim (strip_prefix p f) [ none ↦ rest | some r ↦ r ∷ rest ]

abbrev pub is_same : String → String → Bool
is_same file path = lstrip_slash path == lstrip_slash file

abbrev pub without : List String → List String → List String
without paths = keep (λ f. not (exists_in (is_same f) paths))

-- The documents of the one backup.
abbrev pub documents_at : String → Result String
documents_at path =
    if (path == backup_metadata_path "ch_backup/" "old")
      || (path == backup_light_metadata_path "ch_backup/" "old")
    then ok "old"
    else err storage_error

abbrev pub list_memory : String → Bool → List String → Result (List String)
list_memory directory true s =
    let p = rstrip_slash (lstrip_slash directory) in
    ok (map (λ rest. p ++ ("/" ++ rest)) (behind (p ++ "/") s))
list_memory directory false s = ok ("old" ∷ [])

abbrev pub wrote : String → Exec (List String) (Unit {0})
wrote path s = (ok tt, path ∷ s)

-- The hour and the offset, by a digit each.
abbrev pub digit : ℕ → String
digit n =
    if eqb n 0
    then "0"
    else if eqb n 1
    then "1"
    else if eqb n 2
    then "2"
    else if eqb n 3
    then "3"
    else "4"

abbrev pub clock_text : DateTime → String
clock_text t =
    digit ((t.instant + pos_part t.utc_offset) / 3600)
    ++ ("+" ++ digit (pos_part t.utc_offset / 3600))

abbrev pub memory : Backend
memory = record {
  State = List String;
  upload_data = λ text path encryption. wrote path;
  upload_data_tarball = λ names bytes path options. wrote path;
  upload_file = λ from path encryption. wrote path;
  upload_files_tarball = λ from path files options. wrote path;
  upload_files_tarball_scan = λ from path base excluded options. wrote path;
  download_data = λ path encryption s. documents_at path;
  download_bytes = λ path encryption s. ok [];
  download_data_tarball = λ path encryption s. ok [];
  download_file = λ path to options. pure tt;
  download_files = λ path to options. pure tt;
  delete_files = λ paths s. (ok tt, without paths s);
  wait = λ keep_going. pure tt;
  list_dir = λ directory recursive absolute s. list_memory directory (recursive && absolute) s;
  path_exists = λ path is_dir s. ok (exists_in (is_same path) s);
  get_file_size = λ path s. ok 10240;
  read_bytes = λ path s. none;
  write_text = λ path text. pure tt;
  makedirs = λ path. pure tt;
  dir_is_empty = λ path excluded s. ok true;
  dump_json = λ light m. m.name;
  load_json = λ text. if text == "old" then ok old_backup else err storage_error;
  isoformat = clock_text;
  encode_text = λ text. [];
  decode_text = λ bytes. "";
  decode_strict = λ bytes. ok "";
}
