-- ===== src/Lifecycle/Purge/Retained.antt =====
-- The loop of `purge`: the backups that it retains.
use mathlib.Core.Path.{subst}
use mathlib.Core.List.Memᴰ
use mathlib.Core.List.{Memᴰ}
use ch_backup.Prelude.{
  ℕ, suc, ◌+◌, ◌≤◌, ltb, ltb→lt, ◌≡◌, refl, sym, ap, ◌∙◌, inl, inr, ◌⊎◌, String, true, false,
  eq_refl, Option, some, List, [], ◌∷◌, ◌++◌, contains, All, arith, Bool-cases, Option-cases,
  Result-cases, if◌then◌else◌, ok, ok-injective,
}
use ch_backup.Metadata.{BackupMetadata}
use ch_backup.Dedup.References.{names_of}
use ch_backup.Lifecycle.Services.{Services}
use ch_backup.Lifecycle.Purge.{Selection, select_one, select, is_recent, is_created, count_down}

module _ (light : BackupMetadata) where
  Held : Selection → Type 0
  Held sel = Memᴰ light sel.retained ⊎ Memᴰ light sel.deleting

  to_retained :
      (count : Option ℕ) (backup : BackupMetadata) (sel : Selection)
      → Held sel ⊎ (light ≡ backup)
      → Held (record sel { retain_count = count; retained = sel.retained ++ (backup ∷ []) })
  unfolding Held
  to_retained count backup sel (inl (inl m)) = inl (Memᴰ.append_left _ m)
  to_retained count backup sel (inl (inr m)) = inr m
  to_retained count backup sel (inr e) = inl (Memᴰ.append_right sel.retained (Memᴰ.head e))

  to_deleting :
      (backup : BackupMetadata) (sel : Selection)
      → Held sel ⊎ (light ≡ backup)
      → Held (record sel { deleting = sel.deleting ++ (backup ∷ []) })
  unfolding Held
  to_deleting backup sel (inl (inl m)) = inl m
  to_deleting backup sel (inl (inr m)) = inr (Memᴰ.append_left _ m)
  to_deleting backup sel (inr e) = inr (Memᴰ.append_right sel.deleting (Memᴰ.head e))

  select_one-Held :
      (retain_time : Option ℕ) (now : ℕ) (backup : BackupMetadata) (sel sel' : Selection)
      → select_one retain_time now backup sel ≡ ok sel'
      → Held sel ⊎ (light ≡ backup)
      → Held sel'
  unfolding select_one
  select_one-Held retain_time now backup sel sel' h held = elim (Option-cases sel.retain_count) [
    | inl unset ↦ cc (rw (unset, select_one) at h)
    | inr (count, set) ↦ elim (Bool-cases (ltb 0 count)) [
      | inl positive ↦
          rw (← ok-injective (rw (set, positive, select_one) at h)) (to_retained _ backup sel held)
      | inr spent ↦ elim (Bool-cases (is_recent retain_time now backup)) [
        | inl recent ↦
            rw (← ok-injective (rw (set, spent, recent, select_one) at h))
              (to_retained _ backup sel held)
        | inr old ↦
            rw (← ok-injective (rw (set, spent, old, select_one) at h))
              (to_deleting backup sel held)
      ]
    ]
  ]

-- Every backup of the listing was listed before the lock was taken.
abbrev pub AreListed : List String → List BackupMetadata → Type 0
AreListed names = All (λ backup. contains backup.name names ≡ true)

module _ (v : Services) (names : List String) (retain_time : Option ℕ) (now : ℕ) (s : v.State) where
  -- With all of them listed, the loop is one of `select_one` and changes nothing.
  select-induction :
      (P : Selection → Type 0)
      → ((backup : BackupMetadata) (sel sel' : Selection)
          → select_one retain_time now backup sel ≡ ok sel'
          → P sel
          → P sel')
      → (backups : List BackupMetadata) (sel sel' : Selection) → AreListed names backups
      → (select v names retain_time now backups sel s).0 ≡ ok sel'
      → P sel
      → P sel' × ((select v names retain_time now backups sel s).1 ≡ s)
  unfolding select
  select-induction P step [] sel sel' listed h p = (subst P (ok-injective h) p, refl)
  select-induction P step (backup ∷ backups) sel sel' listed h p =
      elim (Result-cases (select_one retain_time now backup sel)) [
        | inr (e, raised) ↦ cc (rw (listed.0, raised, select) at h)
        | inl (next, chosen) ↦
            rw (listed.0, chosen, select)
              (select-induction P step backups next sel' listed.1
                (rw (listed.0, chosen, select) at h) (step backup sel next chosen p))
      ]

  select-Held :
      (light : BackupMetadata) (backups : List BackupMetadata) (sel sel' : Selection)
      → AreListed names backups
      → (select v names retain_time now backups sel s).0 ≡ ok sel'
      → Memᴰ light backups
      → Held light sel'
  unfolding select
  select-Held light [] sel sel' listed h m = elim m [ ]
  select-Held light (backup ∷ backups) sel sel' listed h m =
      elim (Result-cases (select_one retain_time now backup sel)) [
        | inr (e, raised) ↦ cc (rw (listed.0, raised, select) at h)
        | inl (next, chosen) ↦
            (let rest = rw (listed.0, chosen, select) at h in
              elim m [
                | Memᴰ.head same ↦
                    (select-induction (Held light)
                      (λ b x y c k. select_one-Held light retain_time now b x y c (inl k)) backups
                      next sel' listed.1 rest
                      (select_one-Held light retain_time now backup sel next chosen (inr same))).0
                | Memᴰ.tail m' ↦ select-Held light backups next sel' listed.1 rest m'
              ])
      ]

not_deleting :
    (light : BackupMetadata) (backups : List BackupMetadata)
    → Memᴰ light backups
    → contains light.name (names_of backups) ≡ true
not_deleting light [] m = elim m [ ]
not_deleting light (b ∷ bs) (Memᴰ.head e) = ground (arith, eq_refl light.name, ap (λ x. x.name) e)
not_deleting light (b ∷ bs) (Memᴰ.tail m) = ground (arith, not_deleting light bs m)

-- A backup that the loop of purge, where it succeeds over listed backups, does not select for
-- deletion is retained, and the loop changes nothing in the storage.
pub select-retained :
    (v : Services) (names : List String) (retain_time : Option ℕ) (now : ℕ) (s : v.State)
    (light : BackupMetadata) (backups : List BackupMetadata) (sel sel' : Selection)
    → AreListed names backups
    → (select v names retain_time now backups sel s).0 ≡ ok sel'
    → Memᴰ light backups
    → contains light.name (names_of sel'.deleting) ≡ false
    → Memᴰ light sel'.retained × ((select v names retain_time now backups sel s).1 ≡ s)
unfolding Held
select-retained v names retain_time now s light backups sel sel' listed h m others = (
  elim (select-Held v names retain_time now s light backups sel sel' listed h m) [
    | inl kept ↦ kept
    | inr gone ↦ absurd (cc (sym (not_deleting light sel'.deleting gone) ∙ others))
  ],
  (select-induction v names retain_time now s (λ _. Unit) (λ _ _ _ _ _. tt) backups sel sel' listed
      h tt).1,
)

-- The created backups of a list.
abbrev pub count_created : List BackupMetadata → ℕ
count_created [] = 0
count_created (b ∷ bs) =
    let rest = count_created bs in if is_created b.state then suc rest else rest

count_created-snoc :
    (bs : List BackupMetadata) (b : BackupMetadata)
    → count_created (bs ++ (b ∷ [])) ≡ count_created bs + (if is_created b.state then 1 else 0)
count_created-snoc [] b = ground arith
count_created-snoc (c ∷ bs) b = ground (arith, count_created-snoc bs b)

-- `k` created backups are retained before the first goes.
record IsQuota (k : ℕ) (sel : Selection) : Type 0 where
  left : ℕ
  count : sel.retain_count ≡ some left
  quota : k ≤ left + count_created sel.retained
  first_kept : (sel.deleting ≡ []) ⊎ (left ≡ 0)

select_one-IsQuota :
    (k : ℕ) (retain_time : Option ℕ) (now : ℕ) (backup : BackupMetadata) (sel sel' : Selection)
    → select_one retain_time now backup sel ≡ ok sel'
    → IsQuota k sel
    → IsQuota k sel'
unfolding select_one
select_one-IsQuota k retain_time now backup sel sel' h q =
    let snoc = count_created-snoc sel.retained backup in
    elim (Bool-cases (ltb 0 q.left)) [
      | inl positive ↦ rw (← ok-injective (rw (q.count, positive, select_one) at h)) (record {
        left = count_down q.left backup;
        count = refl;
        quota = ground (arith, snoc, q.quota, ltb→lt 0 q.left positive);
        first_kept = elim q.first_kept [
          | inl none_gone ↦ inl none_gone
          | inr spent ↦ absurd (ground (arith, spent, ltb→lt 0 q.left positive))
        ];
      })
      | inr spent ↦ elim (Bool-cases (is_recent retain_time now backup)) [
        | inl recent ↦ rw (← ok-injective (rw (q.count, spent, recent, select_one) at h)) (record {
          left = q.left;
          count = q.count;
          quota = ground (arith, snoc, q.quota);
          first_kept = q.first_kept;
        })
        | inr old ↦ rw (← ok-injective (rw (q.count, spent, old, select_one) at h)) (record {
          left = q.left;
          count = q.count;
          quota = q.quota;
          first_kept = inr (ground (arith, spent));
        })
      ]
    ]

-- With a retain count, the loop of purge, where it succeeds over listed backups, selects none for
-- deletion unless it has retained that many created backups.
pub select-quota :
    (v : Services) (names : List String) (retain_time : Option ℕ) (now k : ℕ) (s : v.State)
    (backups : List BackupMetadata) (sel : Selection)
    → AreListed names backups
    → (select v names retain_time now backups
        (record { retain_count = some k; retained = []; deleting = [] })
        s).0
      ≡ ok sel
    → (sel.deleting ≡ []) ⊎ (k ≤ count_created sel.retained)
select-quota v names retain_time now k s backups sel listed h =
    let (q, _) =
      select-induction v names retain_time now s (IsQuota k) (select_one-IsQuota k retain_time now)
        backups (record { retain_count = some k; retained = []; deleting = [] }) sel listed h
        (record { left = k; count = refl; quota = omega arith; first_kept = inl refl }) in
    elim q.first_kept [
      | inl none_gone ↦ inl none_gone
      | inr spent ↦ inr (ground (arith, spent, q.quota))
    ]
