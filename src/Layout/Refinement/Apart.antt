-- ===== src/Layout/Refinement/Apart.antt =====
-- The files that `BackupLayout` deletes by the parts of a backup.
use Prim.Native.String.{◌++◌}
use text.Mathlib.TextLemmas.{cons-append}
use ch_backup.Prelude.{
  ◌≡◌, refl, sym, ◌∙◌, inl, inr, String, Bool, true, false, not, ◌&&◌, ◌||◌, ◌==◌, eq_iff, List, [],
  ◌∷◌, exists_in, All, All-append, arith, Bool-cases, ok, All-imp, All-fail, All-map, ok-injective,
  Result-cases, Option-cases,
}
use ch_backup.Paths.{join_path, lstrip_slash, starts_with_slash, is_empty}
use ch_backup.Paths.Segments.{is_plain}
use ch_backup.Metadata.{PartMetadata, BackupMetadata}
use ch_backup.Metadata.Part.{deduplicated_part_name, is_linked, or_else, or_none}
use ch_backup.Lifecycle.Services.{is_stored_at, source_backup}
use ch_backup.Layout.Keys.{get_backup_path, part_path}
use ch_backup.Layout.Keys.Own.{is_table_name, AreNames, part_key, part_key-injective}
use ch_backup.Layout.Backend.{Backend, Settings}
use ch_backup.Layout.Parts.{collect_files, stored_path, get_escaped_if_exists, part_files}
use ch_backup.Layout.Refinement.{is_part_name}

plain-starts-append : (a f : String) → is_plain a ≡ true → starts_with_slash (a ++ f) ≡ false
plain-starts-append String.[] f h = cc
plain-starts-append (String.◌∷◌ c a) f h = rw cons-append (ground arith)

-- The tarball of a part, by its name.
tar_relative :
    (part : PartMetadata)
    → (is_linked part || not (is_part_name part)) ≡ false
    → starts_with_slash (deduplicated_part_name part ++ ".tar") ≡ false
tar_relative part own = plain-starts-append (deduplicated_part_name part) ".tar" (ground arith)

module _ (b : Backend) (config : Settings)
    -- the file that stands for the data of a part, and whether names are escaped in its path
    (escaped : Bool) (file : String) (relative : starts_with_slash file ≡ false) where
  abbrev pub file_of : String → String → String → String → String
  file_of backup d t n =
      join_path (part_path (get_backup_path config.path_root backup) d t n escaped) file

  abbrev pub are_names : String → String → String → String → Bool
  are_names backup d t n = is_plain backup && is_table_name d && is_table_name t && is_plain n

  pub names_of_test : (bk d t n : String) → are_names bk d t n ≡ true → AreNames bk d t n
  names_of_test bk d t n h = record {
    backup = ground arith;
    database = ground arith;
    table = ground arith;
    name = ground arith;
  }

  -- A file of one part against the file that stands for another.
  file_apart :
      (src d' t' n' : String) (e : Bool) (f bk d t n : String)
      → AreNames src d' t' n'
      → AreNames bk d t n
      → starts_with_slash f ≡ false
      → ((src == bk) && (d' == d) && (t' == t) && (n' == n)) ≡ false
      → (lstrip_slash (join_path (part_path (get_backup_path config.path_root src) d' t' n' e) f)
          == lstrip_slash (file_of bk d t n))
        ≡ false
  file_apart src d' t' n' e f bk d t n names' names open_start other =
      let path = join_path (part_path (get_backup_path config.path_root src) d' t' n' e) f in
      elim (Bool-cases (lstrip_slash path == lstrip_slash (file_of bk d t n))) [
        | inr differs ↦ differs
        | inl same ↦
            let (eb, ed, et, en) =
              part_key-injective config.path_root src d' t' n' bk d t n e escaped f file names'
                names
                (sym (part_key config.path_root src d' t' n' e f names' open_start)
                  ∙ (eq_iff _ _).0 same
                  ∙ part_key config.path_root bk d t n escaped file names relative) in
            absurd
              (ground (arith, eq_iff src bk, eq_iff d' d, eq_iff t' t, eq_iff n' n, eb, ed, et, en))
      ]

  own_source :
      (m : BackupMetadata) (part : PartMetadata)
      → is_linked part ≡ false
      → or_else part.link m.name ≡ m.name
  unfolding is_linked or_none or_else
  own_source m part h = elim (Option-cases part.link) [
    | inl missing ↦ rw missing refl
    | inr (l, there) ↦ elim (Bool-cases (is_empty l)) [
      | inl empty ↦ rw (there, or_else, empty) refl
      | inr full ↦ absurd (cc (rw (there, is_linked, or_none, full) at h))
    ]
  ]

  part_names :
      (m : BackupMetadata) (part : PartMetadata)
      → is_plain m.name ≡ true
      → (is_linked part || not (is_part_name part)) ≡ false
      → AreNames m.name part.database part.table (deduplicated_part_name part)
  part_names m part plain own = record {
    backup = plain;
    database = ground arith;
    table = ground arith;
    name = ground arith;
  }

  -- The files by which a part is deleted, against the file that stands for another part.
  part_files_apart :
      (m : BackupMetadata) (part : PartMetadata) (e : Bool) (bk d t n : String)
      → is_plain m.name ≡ true
      → (is_linked part || not (is_part_name part)) ≡ false
      → is_stored_at m bk d t n part ≡ false
      → AreNames bk d t n
      → All
          (λ path. (lstrip_slash path == lstrip_slash (file_of bk d t n)) ≡ false)
          (part_files b config
            (part_path
              (get_backup_path config.path_root m.name)
              part.database
              part.table
              (deduplicated_part_name part)
              e)
            part)
  unfolding part_files source_backup deduplicated_part_name
  part_files_apart m part e bk d t n plain own other names =
      let target = lstrip_slash (file_of bk d t n) in
      let directory =
        part_path (get_backup_path config.path_root m.name) part.database part.table
          (deduplicated_part_name part) e in
      let apart : (f : String)
          → starts_with_slash f ≡ false
          → (lstrip_slash (join_path directory f) == target) ≡ false =
        λ f open_start.
          file_apart m.name part.database part.table (deduplicated_part_name part) e f bk d t n
            (part_names m part plain own) names open_start
            (rw (own_source m part (ground arith)) at other) in
      elim (Bool-cases part.tarball) [
        | inl tar ↦
            rw (tar, part_files)
              (apart (deduplicated_part_name part ++ ".tar") (tar_relative part own), tt)
        | inr files ↦
            rw (files, part_files)
              (All-map (λ path. (lstrip_slash path == target) ≡ false) (join_path directory)
                part.files
                (All-imp apart part.files (All-fail starts_with_slash part.files (ground arith))))
      ]

  -- The loop gathers such files only.
  pub collect_files_apart :
      (m : BackupMetadata) (parts : List PartMetadata) (s : b.State) (paths : List String)
      (bk d t n : String)
      → is_plain m.name ≡ true
      → exists_in (λ p. is_linked p || not (is_part_name p)) parts ≡ false
      → exists_in (is_stored_at m bk d t n) parts ≡ false
      → AreNames bk d t n
      → collect_files b config m parts s ≡ ok paths
      → All (λ path. (lstrip_slash path == lstrip_slash (file_of bk d t n)) ≡ false) paths
  unfolding collect_files stored_path get_escaped_if_exists
  collect_files_apart m [] s paths bk d t n plain own others names h = rw (← ok-injective h) tt
  collect_files_apart m (part ∷ parts) s paths bk d t n plain own others names h =
      let source = own_source m part (ground arith) in
      let escaped_path =
        part_path (get_backup_path config.path_root m.name) part.database part.table
          (deduplicated_part_name part) true in
      elim (Result-cases (b.path_exists escaped_path true s)) [
        | inr (e, failed) ↦
            absurd
              (cc (rw (collect_files, stored_path, get_escaped_if_exists, source, failed) at h))
        | inl (there, asked) ↦ elim (Result-cases (collect_files b config m parts s)) [
          | inr (e, failed) ↦ absurd (
              cc (
                rw (collect_files, stored_path, get_escaped_if_exists, source, asked, failed) at h))
          | inl (rest, gathered) ↦
              let joined =
                rw (collect_files, stored_path, get_escaped_if_exists, source, asked, gathered) at
                  h in
              rw (← ok-injective joined) (
                All-append _
                  (part_files b config
                    (part_path (get_backup_path config.path_root m.name) part.database part.table
                      (deduplicated_part_name part) there)
                    part)
                  rest
                  (part_files_apart m part there bk d t n plain (ground arith) (ground arith) names)
                  (collect_files_apart m parts s rest bk d t n plain (ground arith) (ground arith)
                    names gathered))
        ]
      ]
