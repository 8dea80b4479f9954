-- ===== src/Layout/Refinement/Safety.antt =====
-- The deletions of `BackupLayout`, and the files of the other parts.
use ch_backup.Prelude.{◌≡◌, String, Bool, true, false, ◌&&◌, Error}
use ch_backup.Paths.{starts_with_slash}
use ch_backup.Lifecycle.Exec.{Exec}
use ch_backup.Layout.Backend.{Backend, Settings}
use ch_backup.Layout.Refinement.Apart.{file_of, are_names}
use ch_backup.Layout.Refinement.{Storage, OwnDocuments}

module _ (b : Backend) (config : Settings) (system_unfreeze : String → Exec b.State (Unit {0}))
    (describe : Error → String) (storage : Storage b) (documents : OwnDocuments b config)
    (unfreeze_keeps : (name : String) (s : b.State) (file : String)
      → storage.holds s file ≡ true
      → storage.holds (system_unfreeze name s).1 file ≡ true)
    -- the file that stands for the data of a part, and whether names are escaped in its path
    (escaped : Bool) (file : String) (relative : starts_with_slash file ≡ false) where
  abbrev has_file : b.State → String → String → String → String → Bool
  has_file s backup d t n =
      are_names b config escaped file relative backup d t n
      && storage.holds s (file_of b config escaped file relative backup d t n)
