-- ===== src/Sizes/Tests.antt =====
-- The sizes of two files.
use ch_backup.Prelude.{ℕ, ◌+◌, ◌*◌, ◌≤◌, ◌≡◌, refl, [], ◌∷◌, length, arith}
use ch_backup.Sizes.{align, calc_aligned_files_size, calc_tarball_size, calc_encrypted_size}
use ch_backup.Sizes.Bounds.{sum, calc_aligned_files_size-bounds}

aligned : calc_aligned_files_size (1 ∷ 512 ∷ 600 ∷ []) 512 ≡ 2048
unfolding calc_aligned_files_size align
aligned = refl

calc_aligned_files_size-bounds_example :
    (sum (512 ∷ 600 ∷ []) ≤ calc_aligned_files_size (512 ∷ 600 ∷ []) 512)
    × (calc_aligned_files_size (512 ∷ 600 ∷ []) 512 + length {A = ℕ} (512 ∷ 600 ∷ [])
        ≤ sum (512 ∷ 600 ∷ []) + length {A = ℕ} (512 ∷ 600 ∷ []) * 512)
    × ((k : ℕ) × (calc_aligned_files_size (512 ∷ 600 ∷ []) 512 ≡ k * 512))
calc_aligned_files_size-bounds_example =
    calc_aligned_files_size-bounds (512 ∷ 600 ∷ []) 512 (omega arith)

tarball : calc_tarball_size ("a" ∷ "b" ∷ []) 1024 ≡ 2048
unfolding calc_tarball_size
tarball = refl

encrypted : calc_encrypted_size 10 4 2 ≡ 16
unfolding calc_encrypted_size
encrypted = refl
