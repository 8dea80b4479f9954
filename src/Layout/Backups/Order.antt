-- ===== src/Layout/Backups/Order.antt =====
-- The order of the list that `get_backups` of `BackupLayout` returns.
use ch_backup.Prelude.{
  ◌≡◌, refl, sym, ap, ◌∙◌, ◌==◌, eq_iff, String, Bool, true, false, none, some, List, [], ◌∷◌, keep,
  All, if◌then◌else◌, Bool-cases, inl, inr, ok,
}
use ch_backup.Metadata.{DateTime, BackupMetadata}
use ch_backup.Layout.Texts.{leb_text, leb_text_refl, leb_text_trans, leb_text_total}
use ch_backup.Layout.Backend.{Backend, Settings}
use ch_backup.Layout.Backups.{
  is_not_after, place, newest_first, get_backup_names, get_backup, collect, get_backups,
}

module _ (isoformat : DateTime → String) where
  -- No start time has a text that comes after that of one before it.
  abbrev pub IsNewestFirst : List BackupMetadata → Type 0
  IsNewestFirst [] = Unit
  IsNewestFirst (m ∷ ms) =
      All (λ x. leb_text (isoformat x.start_time) (isoformat m.start_time) ≡ true) ms
      × IsNewestFirst ms

  -- The backups whose start time has a text.
  abbrev pub started_at : String → List BackupMetadata → List BackupMetadata
  started_at text = keep (λ m. isoformat m.start_time == text)

  module _ (P : BackupMetadata → Type 0) where
    place-All :
        (m : BackupMetadata) (ms : List BackupMetadata)
        → P m
        → All P ms
        → All P (place isoformat m ms)
    unfolding place
    place-All m [] h all = (h, tt)
    place-All m (x ∷ xs) h all = elim (Bool-cases (is_not_after isoformat x m)) [
      | inl early ↦ rw (early, place) (h, all)
      | inr late ↦ rw (late, place) (all.0, place-All m xs h all.1)
    ]

    pub newest_first-All : (ms : List BackupMetadata) → All P ms → All P (newest_first isoformat ms)
    unfolding newest_first
    newest_first-All [] all = tt
    newest_first-All (m ∷ ms) all =
        place-All m (newest_first isoformat ms) all.0 (newest_first-All ms all.1)

  All-below :
      (x m : BackupMetadata) (ms : List BackupMetadata)
      → is_not_after isoformat x m ≡ true
      → All (λ y. is_not_after isoformat y x ≡ true) ms
      → All (λ y. is_not_after isoformat y m ≡ true) ms
  All-below x m [] h all = tt
  All-below x m (y ∷ ys) h all = (
    leb_text_trans (isoformat y.start_time) (isoformat x.start_time) (isoformat m.start_time) all.0
        h,
    All-below x m ys h all.1,
  )

  place-IsNewestFirst :
      (m : BackupMetadata) (ms : List BackupMetadata)
      → IsNewestFirst ms
      → IsNewestFirst (place isoformat m ms)
  unfolding place
  place-IsNewestFirst m [] h = (tt, tt)
  place-IsNewestFirst m (x ∷ xs) h = elim (Bool-cases (is_not_after isoformat x m)) [
    | inl early ↦ rw (early, place) ((early, All-below x m xs early h.0), h)
    | inr late ↦
        rw (late, place)
          (
            place-All (λ y. is_not_after isoformat y x ≡ true) m xs
                (leb_text_total (isoformat x.start_time) (isoformat m.start_time) late) h.0,
            place-IsNewestFirst m xs h.1,
          )
  ]

  -- Two texts that differ in their order are not both one text.
  not_both : (s t text : String) → leb_text s t ≡ false → (s == text) ≡ true → (t == text) ≡ false
  not_both s t text late h = elim (Bool-cases (t == text)) [
    | inr differs ↦ differs
    | inl same ↦
        (let e : s ≡ t = (eq_iff s text).0 h ∙ sym ((eq_iff t text).0 same) in
          absurd (cc (sym (leb_text_refl t) ∙ ap (λ x. leb_text x t) (sym e) ∙ late)))
  ]

  started_at-place :
      (text : String) (m : BackupMetadata) (ms : List BackupMetadata)
      → started_at text (place isoformat m ms) ≡ started_at text (m ∷ ms)
  unfolding place
  started_at-place text m [] = refl
  started_at-place text m (x ∷ xs) = elim (Bool-cases (is_not_after isoformat x m)) [
    | inl early ↦ rw (early, place) refl
    | inr late ↦ elim (Bool-cases (isoformat x.start_time == text)) [
      | inr other ↦ rw (late, place, other, started_at-place text m xs) refl
      | inl same ↦
          (let apart = not_both (isoformat x.start_time) (isoformat m.start_time) text late same in
            rw (late, place, same, started_at-place text m xs, apart) refl)
    ]
  ]

  newest_first-IsNewestFirst :
      (ms : List BackupMetadata) → IsNewestFirst (newest_first isoformat ms)
  unfolding newest_first
  newest_first-IsNewestFirst [] = tt
  newest_first-IsNewestFirst (m ∷ ms) =
      place-IsNewestFirst m (newest_first isoformat ms) (newest_first-IsNewestFirst ms)

  started_at-newest_first :
      (text : String) (ms : List BackupMetadata)
      → started_at text (newest_first isoformat ms) ≡ started_at text ms
  unfolding newest_first
  started_at-newest_first text [] = refl
  started_at-newest_first text (m ∷ ms) =
      started_at-place text m (newest_first isoformat ms)
      ∙ ap (λ l. if◌then◌else◌ (isoformat m.start_time == text) (m ∷ l) l)
          (started_at-newest_first text ms)

module _ (b : Backend) (config : Settings) (use_light_meta : Bool) (s : b.State) where
  -- The metadata found under names, in the order of the names.
  pub data Found : List String → List BackupMetadata → Type 0 where
    nothing : Found [] []
    missing :
        (name : String) (names : List String) (ms : List BackupMetadata)
        → get_backup b config use_light_meta name s ≡ ok none
        → Found names ms
        → Found (name ∷ names) ms
    present :
        (name : String) (m : BackupMetadata) (names : List String) (ms : List BackupMetadata)
        → get_backup b config use_light_meta name s ≡ ok (some m)
        → Found names ms
        → Found (name ∷ names) (m ∷ ms)

  collect-Found :
      (names : List String) (ms : List BackupMetadata)
      → Found names ms
      → collect b config use_light_meta names s ≡ ok ms
  unfolding collect
  collect-Found _ _ nothing = refl
  collect-Found _ _ (missing name names ms h rest) =
      rw (h, collect, collect-Found names ms rest) refl
  collect-Found _ _ (present name m names ms h rest) =
      rw (h, collect, collect-Found names ms rest) refl

  -- Where each listed name has no metadata or metadata that load, get_backups returns those that
  -- are found, in the descending order of the ISO texts of their start times, and those of one text
  -- in the order of the listing.
  pub get_backups-IsNewestFirst :
      (names : List String) (ms : List BackupMetadata)
      → get_backup_names b config s ≡ ok names
      → Found names ms
      → (bs : List BackupMetadata) × (get_backups b config use_light_meta s ≡ ok bs)
        × IsNewestFirst b.isoformat bs
        × ((text : String) → started_at b.isoformat text bs ≡ started_at b.isoformat text ms)
  unfolding get_backups
  get_backups-IsNewestFirst names ms listed found = (
    newest_first b.isoformat ms,
    rw (get_backups, listed, collect-Found names ms found) refl,
    newest_first-IsNewestFirst b.isoformat ms,
    λ text. started_at-newest_first b.isoformat text ms,
  )
