-- ===== src/Sizes.antt =====
-- ch_backup/calculators.py: the sizes of what an upload will write. The sizes and names of files on
-- disk, which the code reads from the file system, are given as lists.
pub mod Bounds
mod Tests
use Prim.Native.Char.{Char}
use ch_backup.Prelude.{
  ℕ, zero, suc, ◌+◌, ◌-◌, ◌*◌, ◌/◌, ◌%◌, String, List, [], ◌∷◌, length, ltb, leb, if◌then◌else◌,
}

-- BLOCKSIZE and LENGTH_NAME of Python's `tarfile`
abbrev pub block_size : ℕ
block_size = 512

abbrev pub length_name : ℕ
length_name = 100

-- len(name)
abbrev pub name_length : String → ℕ
name_length String.[] = 0
name_length (String.◌∷◌ c s) = suc (name_length s)

-- math.ceil(n / m)
abbrev pub ceil_div : ℕ → ℕ → ℕ
ceil_div n m = (n + m - 1) / m

-- One size with its padding.
unfoldable pub align : ℕ → ℕ → ℕ
align alignment size =
    let remainder = size % alignment in
    if ltb 0 remainder then size + (alignment - remainder) else size

-- `calc_aligned_files_size`, and `calc_aligned_files_size_scan` of the files that the scan finds
pub calc_aligned_files_size : List ℕ → ℕ → ℕ
calc_aligned_files_size [] alignment = 0
calc_aligned_files_size (size ∷ sizes) alignment =
    align alignment size + calc_aligned_files_size sizes alignment

pub calc_aligned_data_size : {A : Type 0} → List (List A) → ℕ → ℕ
calc_aligned_data_size [] alignment = 0
calc_aligned_data_size (bytes ∷ rest) alignment =
    align alignment (length bytes) + calc_aligned_data_size rest alignment

-- What one file adds to the archive beside its contents.
abbrev pub header_size : String → ℕ
header_size name =
    if leb (name_length name) length_name
    then block_size
    else (ceil_div (name_length name) block_size + 2) * block_size

-- `calc_tarball_size`, and `calc_tarball_size_scan` of the names that the scan finds
pub calc_tarball_size : List String → ℕ → ℕ
calc_tarball_size [] aligned_files_size = aligned_files_size
calc_tarball_size (name ∷ names) aligned_files_size =
    calc_tarball_size names (aligned_files_size + header_size name)

pub calc_encrypted_size : ℕ → ℕ → ℕ → ℕ
calc_encrypted_size data_size encrypt_chunk_size encrypt_metadata_size =
    data_size + ceil_div data_size encrypt_chunk_size * encrypt_metadata_size
