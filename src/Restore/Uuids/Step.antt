-- ===== src/Restore/Uuids/Step.antt =====
-- One table in the loop of `_filter_duplicate_uuid`.
use ch_backup.Prelude.{
  ℕ, ◌+◌, ◌≡◌, refl, ap, sym, ◌∙◌, inl, inr, String, Bool, true, false, ◌&&◌, ◌||◌, ◌==◌, eq_refl,
  Option, none, some, List, [], ◌∷◌, length, exists_in, All, All-imp, Dict, lookup, insert,
  lookup-insert, if◌then◌else◌, Bool-cases, arith, Result, ok, err, ◌>>=◌, clickhouse_backup_error,
}
use ch_backup.Metadata.{TableMetadata}
use ch_backup.Restore.Uuids.{own_uuid, has_name_of}

abbrev is_some : {A : Type 0} → Option A → Bool
is_some none = false
is_some (some x) = true

abbrev same_uuids : Option String → Option String → Bool
same_uuids none v = false
same_uuids (some u) none = false
same_uuids (some u) (some v) = u == v

-- Two tables with one UUID.
abbrev pub shares_uuid : TableMetadata → TableMetadata → Bool
shares_uuid t x = same_uuids (own_uuid t.uuid) (own_uuid x.uuid)

-- A kept table that stands for a table: it has its name, or its UUID if the restore keeps going.
abbrev pub stands_for : Bool → TableMetadata → TableMetadata → Bool
stands_for keep_going t x = has_name_of x t || (keep_going && shares_uuid x t)

abbrev pub known : Dict TableMetadata → Option String → Bool
known d none = false
known d (some u) = is_some (lookup u d)

abbrev pub backs : Bool → TableMetadata → Option TableMetadata → Bool
backs keep_going t none = false
backs keep_going t (some kept) = has_name_of kept t || keep_going

abbrev pub backed : Bool → Dict TableMetadata → TableMetadata → Option String → Bool
backed keep_going d t none = false
backed keep_going d t (some u) = backs keep_going t (lookup u d)

-- No two tables of a list share a UUID.
abbrev pub HaveOwnUuids : List TableMetadata → Type 0
HaveOwnUuids [] = Unit
HaveOwnUuids (t ∷ ts) = All (λ x. shares_uuid t x ≡ false) ts × HaveOwnUuids ts

pub record Outcome (keep_going : Bool) (d : Dict TableMetadata) (ts : List TableMetadata)
    (r : List TableMetadata × ℕ) : Type 0 where
  pub apart : HaveOwnUuids r.0
  pub fresh : All (λ x. known d (own_uuid x.uuid) ≡ false) r.0
  pub covered :
      All
        (λ t.
          (exists_in (stands_for keep_going t) r.0 || backed keep_going d t (own_uuid t.uuid))
          ≡ true)
        ts
  pub counted : length r.0 + r.1 ≡ length ts

abbrev pub Outcomes :
    Bool → Dict TableMetadata → List TableMetadata → Result (List TableMetadata × ℕ) → Type 0
Outcomes keep_going d ts (ok r) = Outcome keep_going d ts r
Outcomes keep_going d ts (err e) = (e ≡ clickhouse_backup_error) × (keep_going ≡ false)

-- A table that is inserted under its UUID.
known-insert :
    (u : String) (t : TableMetadata) (d : Dict TableMetadata) (v : Option String)
    → known (insert u t d) v ≡ false
    → (known d v ≡ false) × (same_uuids (some u) v ≡ false)
known-insert u t d none h = (refl, refl)
known-insert u t d (some v) h =
    let e : is_some (if u == v then some t else lookup v d) ≡ false =
      ap is_some (sym (lookup-insert u v t d)) ∙ h in
    elim (Bool-cases (u == v)) [
      | inl same ↦ let never : true ≡ false = rw same at e in absurd (ground (arith, never))
      | inr other ↦ ((rw other at e), other)
    ]

-- What that table backs, it stands for.
backed-insert :
    (keep_going : Bool) (u : String) (t : TableMetadata) (d : Dict TableMetadata)
    (x : TableMetadata) (v : Option String)
    → backed keep_going (insert u t d) x v ≡ true
    → (backed keep_going d x v || (has_name_of t x || (keep_going && same_uuids (some u) v))) ≡ true
backed-insert keep_going u t d x none h = ground (arith, h)
backed-insert keep_going u t d x (some v) h =
    let e : backs keep_going x (if u == v then some t else lookup v d) ≡ true =
      ap (backs keep_going x) (sym (lookup-insert u v t d)) ∙ h in
    elim (Bool-cases (u == v)) [
      | inl same ↦
          let named : (has_name_of t x || keep_going) ≡ true = rw same at e in
          rw same (ground (arith, named))
      | inr other ↦
          let before : backs keep_going x (lookup v d) ≡ true = rw other at e in
          rw (other, before) refl
    ]

-- A table that is kept, before those that are kept after it.
covered-kept :
    (keep_going : Bool) (d : Dict TableMetadata) (t : TableMetadata) (ts kept : List TableMetadata)
    → All
        (λ x.
          (exists_in (stands_for keep_going x) kept
            || (backed keep_going d x (own_uuid x.uuid) || stands_for keep_going x t))
          ≡ true)
        ts
    → All
        (λ x.
          (exists_in (stands_for keep_going x) (t ∷ kept)
            || backed keep_going d x (own_uuid x.uuid))
          ≡ true)
        (t ∷ ts)
covered-kept keep_going d t ts kept h =
    (ground (arith, eq_refl t.database, eq_refl t.name), All-imp (λ x e. ground (arith, e)) ts h)

module _ (keep_going : Bool) (d : Dict TableMetadata) (t : TableMetadata)
    (ts : List TableMetadata) where
  pub keep-none :
      (r : Result (List TableMetadata × ℕ))
      → own_uuid t.uuid ≡ none
      → Outcomes keep_going d ts r
      → Outcomes keep_going d (t ∷ ts) (r >>= λ later. ok (t ∷ later.0, later.1))
  keep-none (err e) own o = o
  keep-none (ok r) own o = record {
    apart = (All-imp (λ x h. rw own refl) r.0 o.fresh, o.apart);
    fresh = (rw own refl, o.fresh);
    covered = covered-kept keep_going d t ts r.0 (All-imp (λ x h. ground (arith, h)) ts o.covered);
    counted = omega (arith, o.counted);
  }

  pub keep-new :
      (u : String) (r : Result (List TableMetadata × ℕ))
      → own_uuid t.uuid ≡ some u
      → lookup u d ≡ none
      → Outcomes keep_going (insert u t d) ts r
      → Outcomes keep_going d (t ∷ ts) (r >>= λ later. ok (t ∷ later.0, later.1))
  keep-new u (err e) own new o = o
  keep-new u (ok r) own new o = record {
    apart = (
      All-imp
          (λ x h.
            ap (λ o. same_uuids o (own_uuid x.uuid)) own
            ∙ (known-insert u t d (own_uuid x.uuid) h).1)
          r.0 o.fresh,
      o.apart,
    );
    fresh = (
      ap (known d) own ∙ ap is_some new,
      All-imp (λ x h. (known-insert u t d (own_uuid x.uuid) h).0) r.0 o.fresh,
    );
    covered =
        covered-kept keep_going d t ts r.0
          (All-imp (λ x h. stands x (exists_in (stands_for keep_going x) r.0) h) ts o.covered);
    counted = omega (arith, o.counted);
  }
    where
      stands :
          (x : TableMetadata) (b : Bool)
          → (b || backed keep_going (insert u t d) x (own_uuid x.uuid)) ≡ true
          → (b || (backed keep_going d x (own_uuid x.uuid) || stands_for keep_going x t)) ≡ true
      stands x true h = refl
      stands x false h =
          ap
            (λ o.
              backed keep_going d x (own_uuid x.uuid)
              || (has_name_of t x || (keep_going && same_uuids o (own_uuid x.uuid))))
            own
          ∙ backed-insert keep_going u t d x (own_uuid x.uuid) h

  pub skip-known :
      (u : String) (kept : TableMetadata) (r : Result (List TableMetadata × ℕ))
      → own_uuid t.uuid ≡ some u
      → lookup u d ≡ some kept
      → Outcomes keep_going d ts r
      → Outcomes keep_going d (t ∷ ts) (
          if has_name_of kept t || keep_going
          then (r >>= λ later. ok (later.0, later.1 + 1))
          else err clickhouse_backup_error)
  skip-known u kept r own there o = elim (Bool-cases (has_name_of kept t || keep_going)) [
    | inr conflict ↦ rw conflict (refl, ground (arith, conflict))
    | inl named ↦ rw named (skipped r named o)
  ]
    where
      skipped :
          (r : Result (List TableMetadata × ℕ))
          → (has_name_of kept t || keep_going) ≡ true
          → Outcomes keep_going d ts r
          → Outcomes keep_going d (t ∷ ts) (r >>= λ later. ok (later.0, later.1 + 1))
      skipped (err e) named o = o
      skipped (ok r) named o =
          let known_t : backed keep_going d t (own_uuid t.uuid) ≡ true =
            ap (backed keep_going d t) own ∙ ap (backs keep_going t) there ∙ named in
          record {
            apart = o.apart;
            fresh = o.fresh;
            covered = (ground (arith, known_t), o.covered);
            counted = omega (arith, o.counted);
          }
