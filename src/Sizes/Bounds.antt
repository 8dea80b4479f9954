-- ===== src/Sizes/Bounds.antt =====
-- The sizes of aligned files against the sum of the files.
use native.Mathlib.Nat.{mod-add-div', mod-lt, add-mul}
use ch_backup.Prelude.{
  ℕ, ◌+◌, ◌*◌, ◌/◌, ◌%◌, ◌≤◌, ◌<◌, ◌≡◌, inl, inr, List, [], ◌∷◌, length, ltb, Bool-cases, ltb→lt,
  arith,
}
use ch_backup.Sizes.{align, calc_aligned_files_size}

abbrev pub sum : List ℕ → ℕ
sum [] = 0
sum (x ∷ xs) = x + sum xs

align-bounds :
    (a size : ℕ)
    → 0 < a
    → (size ≤ align a size) × (align a size < size + a) × ((k : ℕ) × (align a size ≡ k * a))
unfolding align
align-bounds a size pos = elim (Bool-cases (ltb 0 (size % a))) [
  | inl over ↦ rw over (
    omega (arith, mod-lt size pos),
    omega (arith, mod-lt size pos, ltb→lt 0 (size % a) over),
    (size / a + 1, omega (arith, mod-lt size pos, mod-add-div' size a, add-mul (size / a) 1 a)),
  )
  | inr even ↦
      rw even (omega arith, omega arith, (size / a, ground (arith, even, mod-add-div' size a)))
]

-- For a positive alignment, the aligned size of files is a whole number of blocks, no less than the
-- files, and more than them by less than a block for each file.
pub calc_aligned_files_size-bounds :
    (sizes : List ℕ) (a : ℕ)
    → 0 < a
    → (sum sizes ≤ calc_aligned_files_size sizes a)
      × (calc_aligned_files_size sizes a + length sizes ≤ sum sizes + length sizes * a)
      × ((k : ℕ) × (calc_aligned_files_size sizes a ≡ k * a))
unfolding calc_aligned_files_size
calc_aligned_files_size-bounds [] a pos = (omega arith, omega arith, (0, omega arith))
calc_aligned_files_size-bounds (x ∷ xs) a pos =
    let (least, most, (k, whole)) = align-bounds a x pos in
    let (least', most', (k', whole')) = calc_aligned_files_size-bounds xs a pos in
    (omega arith, omega (arith, add-mul 1 (length xs) a), (k + k', omega (arith, add-mul k k' a)))
