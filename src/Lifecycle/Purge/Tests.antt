-- ===== src/Lifecycle/Purge/Tests.antt =====
-- Runs of the deletions on two backups in memory: the newer links to a part of the older, which goes.

use mathlib.Core.List.{Memᴰ}
use ch_backup.Prelude.{
  inl, inr, exists_in, Bool, Bool-cases, ◌==◌, arith, String, ◌≡◌, refl, true, false, none, some,
  List, [], ◌∷◌, ok, err, Error, lookup, keys, map_values, ◌⊎◌, ◌≤◌,
}
use ch_backup.Metadata.{BackupMetadata, failed}
use ch_backup.Metadata.Samples.{old_backup, new_backup, part_of}
use ch_backup.Metadata.PartName.{split_part_name, split as split_name, int}
use ch_backup.Metadata.Part.{
  load, is_linked, or_none, or_else, normalize_backup_link, deduplicated_part_name, get_or,
}
use ch_backup.Metadata.Table.{get_parts, with_keys, load_parts, load_table}
use ch_backup.Metadata.Backup.{
  get_tables, load_tables, parts_of_tables, parts_of_databases, all_parts,
}
use ch_backup.Lifecycle.Memory.{put, others, Store, memory, memory-IsSafe}
use ch_backup.Lifecycle.Services.{source_backup}
use ch_backup.Lifecycle.Delete.{delete_one}
use ch_backup.Lifecycle.Delete.Safety.{delete_one-safe}
use ch_backup.Lifecycle.Delete.Uploads.{IsKept, delete_one-Keeps}
use ch_backup.Dedup.References.{get_list}
use ch_backup.Lifecycle.Purge.{
  Retention, Selection, select, select_one, split, is_recent, purge, delete, delete_batch,
}
use ch_backup.Lifecycle.Purge.Safety.{delete_batch-safe}
use ch_backup.Lifecycle.Purge.Commands.{has_part, purge-safe, purge-unset_count, delete-safe}
use ch_backup.Lifecycle.Purge.Retained.{select-quota, select-retained, count_created}

abbrev two_backups : List BackupMetadata
two_backups = new_backup ∷ old_backup ∷ []

abbrev store : Store
store = record {
  metas = two_backups;
  files = record { backup = "old"; database = "db"; table = "t"; name = "all_1_1_0" } ∷ [];
}

new-parts : all_parts new_backup ≡ ok (part_of (some "old") ∷ [])
unfolding all_parts parts_of_databases parts_of_tables get_tables load_tables load_table get_parts
    load_parts with_keys load split_part_name split_name int normalize_backup_link or_none get_or
    lookup keys
new-parts = refl

abbrev keep_one : Retention
keep_one = record { retain_time = none; retain_count = some 1 }

abbrev selected : Selection
selected = record { retain_count = some 0; retained = new_backup ∷ []; deleting = old_backup ∷ [] }

select-two :
    (select memory
      ("new" ∷ "old" ∷ [])
      none
      1000
      two_backups
      (record { retain_count = some 1; retained = []; deleting = [] })
      store).0
    ≡ ok selected
unfolding select select_one is_recent
select-two = refl

reload-new : memory.reload_backup store new_backup ≡ ok new_backup
unfolding map_values is_linked load or_none normalize_backup_link
reload-new = refl

purge-safe_example :
    has_part memory memory-IsSafe
      (purge memory keep_one 1000 store store).1
      new_backup
      (part_of (some "old"))
    ≡ true
unfolding memory-IsSafe source_backup or_else deduplicated_part_name
purge-safe_example =
    purge-safe memory memory-IsSafe keep_one 1000 store store ("new" ∷ "old" ∷ []) two_backups
      selected new_backup new_backup (part_of (some "old") ∷ []) (part_of (some "old")) refl refl
      (refl, (refl, tt)) select-two (Memᴰ.head refl) refl reload-new new-parts (Memᴰ.head refl) refl

delete-safe_example :
    has_part memory memory-IsSafe
      (delete memory "old" false store).1
      new_backup
      (part_of (some "old"))
    ≡ true
unfolding memory-IsSafe source_backup or_else deduplicated_part_name split
delete-safe_example =
    delete-safe memory memory-IsSafe "old" false store two_backups new_backup new_backup
      (part_of (some "old") ∷ []) (part_of (some "old")) refl (Memᴰ.head refl) refl reload-new
      new-parts (Memᴰ.head refl) refl

delete_batch-safe_example :
    has_part memory memory-IsSafe
      (delete_batch memory (new_backup ∷ []) (old_backup ∷ []) store).1
      new_backup
      (part_of (some "old"))
    ≡ true
unfolding memory-IsSafe source_backup or_else deduplicated_part_name
delete_batch-safe_example =
    delete_batch-safe memory memory-IsSafe (new_backup ∷ []) (old_backup ∷ []) store new_backup
      new_backup (part_of (some "old") ∷ []) (part_of (some "old")) (refl, tt) (Memᴰ.head refl) refl
      refl reload-new new-parts (Memᴰ.head refl) refl

-- The newest backup was not there when the names were listed.
purge-unset_count_example :
    (e : Error) × ((purge memory
        (record { retain_time = some 100; retain_count = none })
        1000
        (record store { metas = old_backup ∷ [] })
        store).0
      ≡ err e)
purge-unset_count_example =
    purge-unset_count memory (record { retain_time = some 100; retain_count = none }) 1000 100
      (record store { metas = old_backup ∷ [] }) store ("old" ∷ []) two_backups refl refl refl refl
      refl

select-quota_example : (selected.deleting ≡ []) ⊎ (1 ≤ count_created selected.retained)
select-quota_example =
    select-quota memory ("new" ∷ "old" ∷ []) none 1000 1 store two_backups selected
      (refl, (refl, tt)) select-two

select-retained_example :
    Memᴰ new_backup selected.retained
    × ((select memory
          ("new" ∷ "old" ∷ [])
          none
          1000
          two_backups
          (record { retain_count = some 1; retained = []; deleting = [] })
          store).1
        ≡ store)
select-retained_example =
    select-retained memory ("new" ∷ "old" ∷ []) none 1000 store new_backup two_backups
      (record { retain_count = some 1; retained = []; deleting = [] }) selected (refl, (refl, tt))
      select-two (Memᴰ.head refl) refl

delete_one-safe_example :
    memory-IsSafe.has_data
      (delete_one memory old_backup (("db", ("t", "all_1_1_0" ∷ []) ∷ []) ∷ []) store).1
      "old"
      "db"
      "t"
      "all_1_1_0"
    ≡ true
unfolding memory-IsSafe get_list lookup
delete_one-safe_example =
    delete_one-safe memory memory-IsSafe old_backup (("db", ("t", "all_1_1_0" ∷ []) ∷ []) ∷ [])
      store "old" "db" "t" "all_1_1_0" refl (λ _. refl) refl

abbrev is_failed : BackupMetadata → Bool
is_failed m = elim m.state [ failed ↦ true | _ ↦ false ]

abbrev NoneFailed : Store → Type 0
NoneFailed s = exists_in is_failed s.metas ≡ false

none_failed_put :
    (m : BackupMetadata) (ms : List BackupMetadata)
    → is_failed m ≡ false
    → exists_in is_failed ms ≡ false
    → exists_in is_failed (put m ms) ≡ false
none_failed_put m [] h k = rw h refl
none_failed_put m (x ∷ xs) h k = elim (Bool-cases (x.name == m.name)) [
  | inl same ↦ rw (same, h) (ground (arith, k))
  | inr other ↦ rw other (ground (arith, k, none_failed_put m xs h))
]

none_failed_others :
    (name : String) (ms : List BackupMetadata)
    → exists_in is_failed ms ≡ false
    → exists_in is_failed (others name ms) ≡ false
none_failed_others name [] k = refl
none_failed_others name (x ∷ xs) k = elim (Bool-cases (x.name == name)) [
  | inl same ↦ rw same (none_failed_others name xs (ground (arith, k)))
  | inr other ↦ rw other (ground (arith, k, none_failed_others name xs))
]

memory-IsKept : IsKept memory NoneFailed
memory-IsKept = record {
  wait = record { at = λ s p. p };
  unfreeze = λ name. record { at = λ s p. p };
  delete_backup = λ name. record { at = λ s p. none_failed_others name s.metas p };
  delete_data_parts = λ m parts. record { at = λ s p. p };
  upload = λ m state. record {
    at = λ s p. none_failed_put m s.metas (elim state [ inl e ↦ rw e refl | inr e ↦ rw e refl ]) p;
  };
}

delete_one-Keeps_example :
    NoneFailed (delete_one memory old_backup (("db", ("t", "all_1_1_0" ∷ []) ∷ []) ∷ []) store).1
delete_one-Keeps_example =
    delete_one-Keeps memory NoneFailed old_backup (("db", ("t", "all_1_1_0" ∷ []) ∷ []) ∷ []) store
      memory-IsKept refl
