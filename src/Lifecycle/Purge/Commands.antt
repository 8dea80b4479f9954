-- ===== src/Lifecycle/Purge/Commands.antt =====
-- The commands `purge` and `delete` as a whole.

use mathlib.Core.List.{Memᴰ}
use ch_backup.Prelude.{
  ℕ, ◌≡◌, refl, ap, inl, inr, String, Bool, true, false, not, ◌&&◌, ◌==◌, eq_refl, none, some, List,
  [], ◌∷◌, contains, exists_in, arith, Bool-cases, Result-cases, Option, Error, ok, err, type_error,
}
use ch_backup.Metadata.{PartMetadata, BackupMetadata}
use ch_backup.Metadata.Part.{deduplicated_part_name}
use ch_backup.Metadata.Backup.{all_parts}
use ch_backup.Dedup.References.{names_of}
use ch_backup.Lifecycle.Exec.{Keeps-carry_on, Keeps-lift}
use ch_backup.Lifecycle.Services.{Services, IsSafe, source_backup}
use ch_backup.Lifecycle.Purge.{
  Retention, Selection, select_one, select, split, is_found, is_created, is_none, delete_batch,
  purge_locked, purge, delete, deleted_names, reply_for,
}
use ch_backup.Lifecycle.Purge.Retained.{AreListed, select-retained}
use ch_backup.Lifecycle.Purge.Chosen.{All-mem, select-deleting, split-deleting}
use ch_backup.Lifecycle.Purge.Safety.{delete_batch-safe}

-- The files of a part are there.
abbrev pub has_part : (v : Services) → IsSafe v → v.State → BackupMetadata → PartMetadata → Bool
has_part v safe s m part =
    safe.has_data s (source_backup m part) part.database part.table (deduplicated_part_name part)

-- The selection that `purge` starts from.
abbrev pub start_selection : Retention → Selection
start_selection config = record { retain_count = config.retain_count; retained = []; deleting = [] }

purge_locked-safe :
    (v : Services) (safe : IsSafe v) (config : Retention) (now : ℕ) (names : List String)
    (s : v.State) (backups : List BackupMetadata) (sel : Selection) (light m : BackupMetadata)
    (parts : List PartMetadata) (part : PartMetadata)
    → v.get_backups s ≡ ok backups
    → AreListed names backups
    → (select v names config.retain_time now backups (start_selection config) s).0 ≡ ok sel
    → Memᴰ light backups
    → contains light.name (names_of sel.deleting) ≡ false
    → v.reload_backup s light ≡ ok m
    → all_parts m ≡ ok parts
    → Memᴰ part parts
    → has_part v safe s m part ≡ true
    → has_part v safe (purge_locked v config now names s).1 m part ≡ true
unfolding purge_locked
purge_locked-safe v safe config now names s backups sel light m parts part got listed chosen member
      others loaded held there h =
    let named = safe.get_backups_named s backups got in
    let (kept, same) =
      select-retained v names config.retain_time now s light backups (start_selection config) sel
        listed chosen member others in
    rw (got, chosen, same)
      (Keeps-carry_on {P = λ s'. has_part v safe s' m part ≡ true}
        (delete_batch v sel.retained sel.deleting s).0 _
        (λ replies _. Keeps-lift (ok (deleted_names v replies, none)))
        (delete_batch v sel.retained sel.deleting s).1
        (delete_batch-safe v safe sel.retained sel.deleting s light m parts part
          (select-deleting (λ x. safe.is_name x.name ≡ true) v names config.retain_time now s
            backups (start_selection config) sel listed chosen named tt)
          kept (All-mem (λ x. safe.is_name x.name ≡ true) light backups named member) others loaded
          held there h))

-- On services that delete no more than they are asked to, purge keeps the stored files of every
-- part, own or linked, of a readable backup that its loop does not select for deletion, whatever
-- else it deletes and whether it returns or raises, where the listing names every backup there is
-- once the lock is taken.
pub purge-safe :
    (v : Services) (safe : IsSafe v) (config : Retention) (now : ℕ) (listing s : v.State)
    (names : List String) (backups : List BackupMetadata) (sel : Selection)
    (light m : BackupMetadata) (parts : List PartMetadata) (part : PartMetadata)
    → v.get_backup_names listing ≡ ok names
    → v.get_backups s ≡ ok backups
    → AreListed names backups
    → (select v names config.retain_time now backups (start_selection config) s).0 ≡ ok sel
    → Memᴰ light backups
    → contains light.name (names_of sel.deleting) ≡ false
    → v.reload_backup s light ≡ ok m
    → all_parts m ≡ ok parts
    → Memᴰ part parts
    → has_part v safe s m part ≡ true
    → has_part v safe (purge v config now listing s).1 m part ≡ true
unfolding purge
purge-safe v safe config now listing s names backups sel light m parts part named got listed chosen
      member others loaded held there h =
    elim (Bool-cases (is_none config.retain_time && is_none config.retain_count)) [
      | inl unset ↦ rw (unset, purge) h
      | inr set ↦
          rw (set, named, purge)
            (purge_locked-safe v safe config now names s backups sel light m parts part got listed
              chosen member others loaded held there h)
    ]

-- With no retain count the loop raises before it is through a listing that has a listed backup.
select-unset_count :
    (v : Services) (names : List String) (retain_time : Option ℕ) (now : ℕ)
    (backups : List BackupMetadata) (sel : Selection) (s : v.State)
    → sel.retain_count ≡ none
    → exists_in (λ b. contains b.name names) backups ≡ true
    → (e : Error) × ((select v names retain_time now backups sel s).0 ≡ err e)
unfolding select select_one
select-unset_count v names retain_time now [] sel s unset some_listed = cc some_listed
select-unset_count v names retain_time now (b ∷ bs) sel s unset some_listed =
    elim (Bool-cases (contains b.name names)) [
      | inl listed ↦ (type_error, rw (listed, unset, select) refl)
      | inr unlisted ↦
          (let later : exists_in (λ b. contains b.name names) bs ≡ true =
              rw unlisted at some_listed in
            elim (Result-cases (v.delete_backup b.name s).0) [
              | inr (e, failed) ↦ (e, rw (unlisted, failed, select) refl)
              | inl (done, deleted) ↦
                  rw (unlisted, deleted, select)
                    (select-unset_count v names retain_time now bs sel (v.delete_backup b.name s).1
                      unset later)
            ])
    ]

-- With a retain time and no retain count, purge raises an error if some backup that it looks at is
-- in the listing, whichever of them this is and whatever it has deleted before.
pub purge-unset_count :
    (v : Services) (config : Retention) (now seconds : ℕ) (listing s : v.State)
    (names : List String) (backups : List BackupMetadata)
    → config.retain_time ≡ some seconds
    → config.retain_count ≡ none
    → v.get_backup_names listing ≡ ok names
    → v.get_backups s ≡ ok backups
    → exists_in (λ b. contains b.name names) backups ≡ true
    → (e : Error) × ((purge v config now listing s).0 ≡ err e)
unfolding purge purge_locked
purge-unset_count v config now seconds listing s names backups timed unset named got some_listed =
    go (
      select-unset_count v names config.retain_time now backups (start_selection config) s unset
        some_listed)
  where
    go :
        ((e : Error) × ((select v names config.retain_time now backups (start_selection config) s).0
            ≡ err e))
        → (e : Error) × ((purge v config now listing s).0 ≡ err e)
    go (e, raised) =
        let raised' = rw (timed, unset) at raised in
        (e, rw (timed, unset, named, got, raised', purge, purge_locked) refl)

-- A backup whose name is not that of the first is one of the others.
not_first :
    (light b : BackupMetadata) (bs others : List BackupMetadata)
    → Memᴰ light (b ∷ bs)
    → contains light.name (names_of (b ∷ others)) ≡ false
    → Memᴰ light bs × (contains light.name (names_of others) ≡ false)
not_first light b bs others (Memᴰ.head e) h =
    absurd (ground (arith, eq_refl light.name, ap (λ x. x.name) e, h))
not_first light b bs others (Memᴰ.tail m) h = (m, ground (arith, h))

split-retained :
    (name : String) (purge_partial first : Bool) (light : BackupMetadata)
    (backups : List BackupMetadata)
    → Memᴰ light backups
    → contains light.name (names_of (split name purge_partial first backups).deleting) ≡ false
    → Memᴰ light (split name purge_partial first backups).retained
unfolding split
split-retained name purge_partial first light [] m h = elim m [ ]
split-retained name purge_partial first light (b ∷ bs) m h =
    let rest = (split name purge_partial false bs).deleting in
    elim (Bool-cases (b.name == name)) [
      | inl named ↦
          (let (m', h') = not_first light b bs rest m (rw (named, split) at h) in
            rw (named, split) (split-retained name purge_partial false light bs m' h'))
      | inr other ↦ elim (Bool-cases (purge_partial && not (is_created b.state) && not first)) [
        | inl partial ↦
            (let (m', h') = not_first light b bs rest m (rw (other, partial, split) at h) in
              rw (other, partial, split) (split-retained name purge_partial false light bs m' h'))
        | inr whole ↦
            rw (other, whole, split)
              (elim m [
                | Memᴰ.head e ↦ Memᴰ.head e
                | Memᴰ.tail m' ↦ Memᴰ.tail (
                    split-retained name purge_partial false light bs m'
                      (rw (other, whole, split) at h))
              ])
      ]
    ]

-- On services that delete no more than they are asked to, delete keeps the stored files of every
-- part, own or linked, of a readable backup that it does not select for deletion, whether it
-- returns or raises.
pub delete-safe :
    (v : Services) (safe : IsSafe v) (name : String) (purge_partial : Bool) (s : v.State)
    (backups : List BackupMetadata) (light m : BackupMetadata) (parts : List PartMetadata)
    (part : PartMetadata)
    → v.get_backups s ≡ ok backups
    → Memᴰ light backups
    → contains light.name (names_of (split name purge_partial true backups).deleting) ≡ false
    → v.reload_backup s light ≡ ok m
    → all_parts m ≡ ok parts
    → Memᴰ part parts
    → has_part v safe s m part ≡ true
    → has_part v safe (delete v name purge_partial s).1 m part ≡ true
unfolding delete
delete-safe v safe name purge_partial s backups light m parts part got member others loaded held
      there h =
    let named = safe.get_backups_named s backups got in
    let sp = split name purge_partial true backups in
    elim (Bool-cases (is_found name backups)) [
      | inr missing ↦ rw (got, missing, delete) h
      | inl found ↦
          rw (got, found, delete)
            (Keeps-carry_on {P = λ s'. has_part v safe s' m part ≡ true}
              (delete_batch v sp.retained sp.deleting s).0 _
              (λ replies _. Keeps-lift (ok (reply_for v name (none, none) replies)))
              (delete_batch v sp.retained sp.deleting s).1
              (delete_batch-safe v safe sp.retained sp.deleting s light m parts part
                (split-deleting (λ x. safe.is_name x.name ≡ true) name purge_partial true backups
                  named)
                (split-retained name purge_partial true light backups member others)
                (All-mem (λ x. safe.is_name x.name ≡ true) light backups named member) others loaded
                held there h))
    ]
