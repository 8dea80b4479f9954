-- ===== src/Lifecycle/Purge/Safety.antt =====
-- The deletions of `purge` and `delete`, and the files that the retained backups refer to.

use mathlib.Core.List.{Memᴰ}
use ch_backup.Prelude.{
  ◌≡◌, refl, sym, ap, ◌∙◌, inl, inr, ◌⊎◌, String, Bool, true, false, ◌||◌, ◌==◌, eq_iff, eq_refl,
  List, [], ◌∷◌, Dict, contains, All, exists_in, arith, Bool-cases, Result, ok,
}
use ch_backup.Metadata.{PartMetadata, BackupMetadata}
use ch_backup.Metadata.Part.{or_none, or_else, is_linked, deduplicated_part_name}
use ch_backup.Metadata.Backup.{all_parts}
use ch_backup.Dedup.References.{
  DedupReferences, get_list, link_of, names_of, collect_dedup_references,
}
use ch_backup.Dedup.References.Exact.{
  is_referenced, refers_to, stored_parts, parts_of, is_linked_from, collect_dedup_references-exact,
}
use ch_backup.Lifecycle.Exec.{Keeps, Keeps-bind, Keeps-carry_on, Keeps-lift}
use ch_backup.Lifecycle.Services.{Services, IsSafe, source_backup}
use ch_backup.Lifecycle.Delete.Safety.{delete_one-safe}
use ch_backup.Lifecycle.Purge.{delete_each, delete_batch}

module _ (v : Services) (safe : IsSafe v) (b d t n : String) where
  unfoldable Stays : v.State → Type 0
  Stays s = safe.has_data s b d t n ≡ true

  delete_each-Keeps :
      (refs : Dict DedupReferences) (backups : List BackupMetadata)
      → All (λ x. safe.is_name x.name ≡ true) backups
      → (contains b (names_of backups) ≡ true → is_referenced refs b d t n ≡ true)
      → Keeps Stays (delete_each v refs backups)
  unfolding delete_each Stays
  delete_each-Keeps refs [] named spare = record { at = λ s h. h }
  delete_each-Keeps refs (light ∷ backups) named spare =
      Keeps-bind _ _
        (record {
          at =
              λ s. delete_one-safe v safe light (get_list light.name refs) s b d t n named.0 spared;
        })
        λ reply.
          Keeps-bind _ _
            (delete_each-Keeps refs backups named.1 λ h. spare (rw h (or_true (light.name == b))))
            λ replies. Keeps-lift (ok ((light.name, reply) ∷ replies))
    where
      or_true : (x : Bool) → (x || true) ≡ true
      or_true x = ground arith

      spared :
          (light.name == b) ≡ true
          → contains n (get_list t (get_list d (get_list light.name refs))) ≡ true
      spared same = rw ((eq_iff light.name b).0 same) (spare (rw same refl))

-- A part of a list passes the test, so one of the list does.
exists_of_mem :
    {A : Type 0} (test : A → Bool) (x : A) (xs : List A)
    → Memᴰ x xs
    → test x ≡ true
    → exists_in test xs ≡ true
exists_of_mem test x [] m h = elim m [ ]
exists_of_mem test x (y ∷ ys) (Memᴰ.head e) h = rw (← e, h) refl
exists_of_mem test x (y ∷ ys) (Memᴰ.tail m) h = ground (arith, exists_of_mem test x ys m h)

is_linked_from-mem :
    (reload : BackupMetadata → Result BackupMetadata) (light : BackupMetadata)
    (retained : List BackupMetadata) (b d t n : String)
    → Memᴰ light retained
    → exists_in (refers_to b d t n) (parts_of reload (stored_parts reload light)) ≡ true
    → is_linked_from reload retained b d t n ≡ true
unfolding is_linked_from
is_linked_from-mem reload light [] b d t n m h = elim m [ ]
is_linked_from-mem reload light (l ∷ ls) b d t n (Memᴰ.head e) h = ground (
  arith,
  sym (ap (λ x. exists_in (refers_to b d t n) (parts_of reload (stored_parts reload x))) e),
  h,
)
is_linked_from-mem reload light (l ∷ ls) b d t n (Memᴰ.tail m) h =
    ground (arith, is_linked_from-mem reload light ls b d t n m h)

-- A part is stored by its own backup, or refers to what it links to.
refers_to-linked :
    (m : BackupMetadata) (part : PartMetadata)
    → (source_backup m part ≡ m.name)
      ⊎ (refers_to
            (source_backup m part)
            part.database
            part.table
            (deduplicated_part_name part)
            part
          ≡ true)
unfolding source_backup or_else or_none is_linked
refers_to-linked m part = elim (Bool-cases (is_linked part)) [
  | inl linked ↦ inr (
      ground (
        arith,
        linked,
        eq_refl (link_of part),
        eq_refl part.database,
        eq_refl part.table,
        eq_refl (deduplicated_part_name part),
      ))
  | inr stored ↦ inl (ground (arith, stored))
]

-- On services that delete no more than they are asked to, the deletion of a batch of backups keeps
-- the stored files of every part of each readable backup that is retained and not named like one of
-- the batch, under whichever backup they are stored, whether it returns or raises.
pub delete_batch-safe :
    (v : Services) (safe : IsSafe v) (retained batch : List BackupMetadata) (s : v.State)
    (light m : BackupMetadata) (parts : List PartMetadata) (part : PartMetadata)
    → All (λ x. safe.is_name x.name ≡ true) batch
    → Memᴰ light retained
    → safe.is_name light.name ≡ true
    → contains light.name (names_of batch) ≡ false
    → v.reload_backup s light ≡ ok m
    → all_parts m ≡ ok parts
    → Memᴰ part parts
    → safe.has_data s (source_backup m part) part.database part.table (deduplicated_part_name part)
      ≡ true
    → safe.has_data
        (delete_batch v retained batch s).1
        (source_backup m part)
        part.database
        part.table
        (deduplicated_part_name part)
      ≡ true
unfolding delete_batch Stays
delete_batch-safe v safe retained batch s light m parts part named kept plain others loaded held
      member there =
    Keeps-carry_on (collect_dedup_references (v.reload_backup s) retained batch) _
      (λ refs got.
        delete_each-Keeps v safe b part.database part.table name refs batch named (spare refs got))
      s there
  where
    b : String
    b = source_backup m part

    name : String
    name = deduplicated_part_name part

    spare :
        (refs : Dict DedupReferences)
        → collect_dedup_references (v.reload_backup s) retained batch ≡ ok refs
        → contains b (names_of batch) ≡ true
        → is_referenced refs b part.database part.table name ≡ true
    spare refs got deleted =
        collect_dedup_references-exact (v.reload_backup s) retained batch refs b part.database
          part.table name got
        ∙ elim (refers_to-linked m part) [
          | inr refers ↦ rw deleted (
              is_linked_from-mem (v.reload_backup s) light retained b part.database part.table name
                kept (rw (loaded, held) (exists_of_mem _ part parts member refers)))
          | inl own ↦ cc (
              sym deleted
              ∙ ap (λ x. contains x (names_of batch))
                  (own ∙ (safe.reload_keeps light m s plain loaded).0)
              ∙ others)
        ]
