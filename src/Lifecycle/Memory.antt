-- ===== src/Lifecycle/Memory.antt =====
-- Services in memory, for the examples: the metadata and the files of the backups, one file a part.
use ch_backup.Prelude.{
  ◌≡◌, refl, ap, ◌∙◌, inl, inr, String, Bool, true, false, not, ◌&&◌, ◌==◌, eq_iff, none, List, [],
  ◌∷◌, Dict, map_values, AllItems, All, exists_in, keep, exists-keep, arith, Bool-cases,
  if◌then◌else◌, Result, ok, err, storage_error, ok-injective,
}
use ch_backup.Metadata.{PartMetadata, RawPart, RawTable, RawDatabase, BackupMetadata}
use ch_backup.Metadata.Part.{load, is_linked, deduplicated_part_name, or_none, or_else}
use ch_backup.Metadata.Backup.OwnNamed.{IsOwnNamed, AreOwnNamed}
use ch_backup.Dedup.References.{names_of}
use ch_backup.Lifecycle.Exec.{pure}
use ch_backup.Lifecycle.Services.{Services, IsSafe, is_stored_at}

pub record File : Type 0 where
  pub backup : String
  pub database : String
  pub table : String
  pub name : String

pub record Store : Type 0 where
  pub metas : List BackupMetadata
  pub files : List File

abbrev pub is_file : String → String → String → String → File → Bool
is_file b d t n f = (f.backup == b) && (f.database == d) && (f.table == t) && (f.name == n)

-- A part that links to nothing keeps no name of another part.
abbrev pub clean_part : RawPart → RawPart
clean_part raw = record raw {
  link_part_name = if is_linked (load "" "" "" raw) then raw.link_part_name else none;
}

abbrev pub clean_table : RawTable → RawTable
clean_table table = record table { parts = map_values clean_part table.parts }

abbrev pub clean_database : RawDatabase → RawDatabase
clean_database db = record db { tables = map_values clean_table db.tables }

abbrev pub clean : BackupMetadata → BackupMetadata
clean m = record m { databases = map_values clean_database m.databases }

AllItems-map_values :
    {V W : Type 0} (Q : String → W → Type 0) (f : V → W) (m : Dict V)
    → ((k : String) (v : V) → Q k (f v))
    → AllItems Q (map_values f m)
unfolding map_values
AllItems-map_values Q f [] h = tt
AllItems-map_values Q f ((k, v) ∷ m) h = (h k v, AllItems-map_values Q f m h)

abbrev pub any_part : PartMetadata → Bool
any_part part = true

clean_part-IsOwnNamed :
    (d t n : String) (raw : RawPart) → IsOwnNamed any_part d t n (clean_part raw)
unfolding load is_linked deduplicated_part_name or_none or_else
clean_part-IsOwnNamed d t n raw = (refl, λ h. rw h refl)

clean-AreOwnNamed : (m : BackupMetadata) → AreOwnNamed any_part (clean m).databases
clean-AreOwnNamed m = AllItems-map_values _ clean_database m.databases λ d db.
    AllItems-map_values _ clean_table db.tables
      λ t table. AllItems-map_values _ clean_part table.parts (clean_part-IsOwnNamed d t)

abbrev pub find : String → List BackupMetadata → Result BackupMetadata
find name [] = err storage_error
find name (m ∷ ms) = let rest = find name ms in if m.name == name then ok (clean m) else rest

abbrev pub put : BackupMetadata → List BackupMetadata → List BackupMetadata
put m [] = m ∷ []
put m (x ∷ xs) = if x.name == m.name then m ∷ xs else x ∷ put m xs

abbrev pub others : String → List BackupMetadata → List BackupMetadata
others name [] = []
others name (m ∷ ms) = if m.name == name then others name ms else m ∷ others name ms

abbrev pub memory : Services
memory = record {
  State = Store;
  get_backup_names = λ s. ok (names_of s.metas);
  get_backups = λ s. ok s.metas;
  reload_backup = λ s m. find m.name s.metas;
  upload_backup_metadata = λ m s. (ok tt, record s { metas = put m s.metas });
  delete_backup = λ name s. (
    ok tt,
    record { metas = others name s.metas; files = keep (λ f. not (f.backup == name)) s.files },
  );
  delete_data_parts = λ m parts s. (
    ok tt,
    record s {
      files =
          keep (λ f. not (exists_in (is_stored_at m f.backup f.database f.table f.name) parts))
            s.files;
    },
  );
  wait = pure tt;
  system_unfreeze = λ name. pure tt;
  describe = λ e. "error";
}

pub find_lem :
    (name : String) (ms : List BackupMetadata) (m : BackupMetadata)
    → find name ms ≡ ok m
    → (m.name ≡ name) × AreOwnNamed any_part m.databases
find_lem name [] m h = absurd (cc h)
find_lem name (x ∷ xs) m h = elim (Bool-cases (x.name == name)) [
  | inl same ↦ rw (← ok-injective (rw same at h)) ((eq_iff x.name name).0 same, clean-AreOwnNamed x)
  | inr other ↦ find_lem name xs m (rw other at h)
]

-- Dropping files by a test that a file fails keeps the file.
module _ (gone : File → Bool) (b d t n : String) where
  fails :
      (f : File)
      → gone (record { backup = b; database = d; table = t; name = n }) ≡ false
      → is_file b d t n f ≡ true
      → (not (gone f) && is_file b d t n f) ≡ true
  fails f h same =
      let e : f ≡ record { backup = b; database = d; table = t; name = n } =
        ground (
          arith,
          same,
          eq_iff f.backup b,
          eq_iff f.database d,
          eq_iff f.table t,
          eq_iff f.name n,
        ) in
      rw (same, ap gone e, h) refl

  pub keep-file :
      (fs : List File)
      → gone (record { backup = b; database = d; table = t; name = n }) ≡ false
      → exists_in (is_file b d t n) fs ≡ true
      → exists_in (is_file b d t n) (keep (λ f. not (gone f)) fs) ≡ true
  keep-file fs h there = exists-keep (λ f. not (gone f)) (is_file b d t n) fs ∙ go fs there
    where
      go :
          (fs : List File)
          → exists_in (is_file b d t n) fs ≡ true
          → exists_in (λ f. not (gone f) && is_file b d t n f) fs ≡ true
      go [] k = k
      go (f ∷ fs) k = elim (Bool-cases (is_file b d t n f)) [
        | inl same ↦ rw (fails f h same) refl
        | inr other ↦ rw (go fs (rw other at k)) (ground arith)
      ]

pub All-named : (ms : List BackupMetadata) → All (λ m. ◌≡◌ {A = Bool} true true) ms
All-named [] = tt
All-named (m ∷ ms) = (refl, All-named ms)

unfoldable pub memory-IsSafe : IsSafe memory
memory-IsSafe = record {
  is_name = λ name. true;
  is_part = any_part;
  has_data = λ s b d t n. exists_in (is_file b d t n) s.files;
  upload_keeps = λ m s b d t n h. h;
  wait_keeps = λ s b d t n h. h;
  unfreeze_keeps = λ name s b d t n h. h;
  delete_backup_keeps = λ name s b d t n _ other h.
      keep-file (λ f. f.backup == name) b d t n s.files
        (ground (arith, eq_iff name b, eq_iff b name, other)) h;
  delete_data_parts_keeps = λ m parts s b d t n _ _ none_asked h.
      keep-file (λ f. exists_in (is_stored_at m f.backup f.database f.table f.name) parts) b d t n
        s.files none_asked h;
  reload_keeps = λ light m s _ h. find_lem light.name s.metas m h;
  get_backups_named = λ s ms h. All-named ms;
}
