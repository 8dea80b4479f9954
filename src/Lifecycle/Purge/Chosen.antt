-- ===== src/Lifecycle/Purge/Chosen.antt =====
-- The backups that `purge` and `delete` choose from the listing.
use mathlib.Core.Path.{subst}
use mathlib.Core.List.{Memᴰ}
use ch_backup.Prelude.{
  ℕ, sym, ltb, ◌≡◌, inl, inr, String, Bool, false, not, ◌&&◌, ◌==◌, Option, List, [], ◌∷◌, All,
  All-append, Bool-cases, Option-cases, Result-cases, ok, ok-injective,
}
use ch_backup.Metadata.{BackupMetadata}
use ch_backup.Lifecycle.Services.{Services}
use ch_backup.Lifecycle.Purge.{Selection, select_one, select, split, is_recent, is_created}
use ch_backup.Lifecycle.Purge.Retained.{AreListed}

pub All-mem :
    (P : BackupMetadata → Type 0) (x : BackupMetadata) (xs : List BackupMetadata)
    → All P xs
    → Memᴰ x xs
    → P x
All-mem P x [] all m = elim m [ ]
All-mem P x (y ∷ ys) all (Memᴰ.head e) = subst P (sym e) all.0
All-mem P x (y ∷ ys) all (Memᴰ.tail m) = All-mem P x ys all.1 m

module _ (P : BackupMetadata → Type 0) where
  select_one-deleting :
      (retain_time : Option ℕ) (now : ℕ) (backup : BackupMetadata) (sel sel' : Selection)
      → select_one retain_time now backup sel ≡ ok sel'
      → P backup
      → All P sel.deleting
      → All P sel'.deleting
  unfolding select_one
  select_one-deleting retain_time now backup sel sel' h p all =
      elim (Option-cases sel.retain_count) [
        | inl unset ↦ cc (rw (unset, select_one) at h)
        | inr (count, set) ↦ elim (Bool-cases (ltb 0 count)) [
          | inl positive ↦ rw (← ok-injective (rw (set, positive, select_one) at h)) all
          | inr spent ↦ elim (Bool-cases (is_recent retain_time now backup)) [
            | inl recent ↦ rw (← ok-injective (rw (set, spent, recent, select_one) at h)) all
            | inr old ↦
                rw (← ok-injective (rw (set, spent, old, select_one) at h))
                  (All-append P sel.deleting (backup ∷ []) all (p, tt))
          ]
        ]
      ]

  pub select-deleting :
      (v : Services) (names : List String) (retain_time : Option ℕ) (now : ℕ) (s : v.State)
      (backups : List BackupMetadata) (sel sel' : Selection)
      → AreListed names backups
      → (select v names retain_time now backups sel s).0 ≡ ok sel'
      → All P backups
      → All P sel.deleting
      → All P sel'.deleting
  unfolding select
  select-deleting v names retain_time now s [] sel sel' listed h ps all =
      subst (λ x. All P x.deleting) (ok-injective h) all
  select-deleting v names retain_time now s (backup ∷ backups) sel sel' listed h ps all =
      elim (Result-cases (select_one retain_time now backup sel)) [
        | inr (e, raised) ↦ cc (rw (listed.0, raised, select) at h)
        | inl (next, chosen) ↦
            select-deleting v names retain_time now s backups next sel' listed.1
              (rw (listed.0, chosen, select) at h) ps.1
              (select_one-deleting retain_time now backup sel next chosen ps.0 all)
      ]

  pub split-deleting :
      (name : String) (purge_partial first : Bool) (backups : List BackupMetadata)
      → All P backups
      → All P (split name purge_partial first backups).deleting
  unfolding split
  split-deleting name purge_partial first [] ps = tt
  split-deleting name purge_partial first (b ∷ bs) ps =
      let rest = split-deleting name purge_partial false bs ps.1 in
      elim (Bool-cases (b.name == name)) [
        | inl named ↦ rw (named, split) (ps.0, rest)
        | inr other ↦ elim (Bool-cases (purge_partial && not (is_created b.state) && not first)) [
          | inl partial ↦ rw (other, partial, split) (ps.0, rest)
          | inr whole ↦ rw (other, whole, split) rest
        ]
      ]
