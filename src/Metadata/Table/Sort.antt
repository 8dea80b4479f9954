-- ===== src/Metadata/Table/Sort.antt =====
-- The sorting in `TableMetadata.get_parts`.
use ch_backup.Prelude.{
  ℕ, ◌+◌, ◌≡◌, refl, String, Bool, ◌||◌, List, [], ◌∷◌, arith, ok, ◌>>=◌, >>=-eq-ok, exists_in,
}
use ch_backup.Metadata.{PartMetadata, TableMetadata}
use ch_backup.Metadata.PartName.{PartInfo, split_part_name}
use ch_backup.Metadata.Table.{Keyed, with_keys, insert_sorted, sort, strip, load_parts, get_parts}

-- A sum over parts.
unfoldable pub sum_by : (PartMetadata → ℕ) → List PartMetadata → ℕ
sum_by weight [] = 0
sum_by weight (p ∷ ps) = weight p + sum_by weight ps

module _ (weight : PartMetadata → ℕ) where
  sum-insert_sorted :
      (info : PartInfo) (p : PartMetadata) (xs : Keyed)
      → sum_by weight (strip (insert_sorted info p xs)) ≡ weight p + sum_by weight (strip xs)
  unfolding insert_sorted strip sum_by
  sum-insert_sorted info p [] = refl
  sum-insert_sorted info p ((i, q) ∷ xs) = ground (arith, sum-insert_sorted info p xs)

  sum-sort : (xs : Keyed) → sum_by weight (strip (sort xs)) ≡ sum_by weight (strip xs)
  unfolding sort strip sum_by
  sum-sort [] = refl
  sum-sort ((i, p) ∷ xs) = omega (arith, sum-insert_sorted i p (sort xs), sum-sort xs)

module _ (test : PartMetadata → Bool) where
  exists-insert_sorted :
      (info : PartInfo) (p : PartMetadata) (xs : Keyed)
      → exists_in test (strip (insert_sorted info p xs)) ≡ (test p || exists_in test (strip xs))
  unfolding insert_sorted strip
  exists-insert_sorted info p [] = refl
  exists-insert_sorted info p ((i, q) ∷ xs) = ground (arith, exists-insert_sorted info p xs)

  exists-sort : (xs : Keyed) → exists_in test (strip (sort xs)) ≡ exists_in test (strip xs)
  unfolding sort strip
  exists-sort [] = refl
  exists-sort ((i, p) ∷ xs) = ground (arith, exists-insert_sorted i p (sort xs), exists-sort xs)

strip-with_keys : (ps : List PartMetadata) (ks : Keyed) → with_keys ps ≡ ok ks → strip ks ≡ ps
unfolding with_keys strip
strip-with_keys [] ks h = ground arith
strip-with_keys (p ∷ ps) ks h =
    let (info, _, h') =
      >>=-eq-ok (split_part_name p.name) (λ i. with_keys ps >>= λ r. ok ((i, p) ∷ r)) h in
    let (rest, e, h'') = >>=-eq-ok (with_keys ps) (λ r. ok ((info, p) ∷ r)) h' in
    ground (arith, strip-with_keys ps rest e, h'')

module _ (excluded : List String) (t : TableMetadata) (ps : List PartMetadata)
    (got : get_parts excluded t ≡ ok ps) where
  abbrev loaded : List PartMetadata
  loaded = load_parts t.database t.name excluded t.parts

  sorted_from : (ks : Keyed) × (strip ks ≡ loaded) × (strip (sort ks) ≡ ps)
  unfolding get_parts
  sorted_from =
      let (ks, e, h) = >>=-eq-ok (with_keys loaded) (λ k. ok (strip (sort k))) got in
      (ks, strip-with_keys loaded ks e, ground (arith, h))

  -- The parts that `get_parts` returns sum up to those that it loads.
  pub sum-get_parts :
      (weight : PartMetadata → ℕ)
      → sum_by weight ps ≡ sum_by weight (load_parts t.database t.name excluded t.parts)
  sum-get_parts weight = let (ks, e, h) = sorted_from in rw (← h, ← e) (sum-sort weight ks)

  -- Where get_parts succeeds, a test passes on one of the parts it returns just if it does on one
  -- of the parts of the table that are not excluded.
  pub exists-get_parts :
      (test : PartMetadata → Bool)
      → exists_in test ps ≡ exists_in test (load_parts t.database t.name excluded t.parts)
  exists-get_parts test = let (ks, e, h) = sorted_from in rw (← h, ← e) (exists-sort test ks)
