-- ===== src/Fifo/Tests.antt =====
-- The theorems of the FIFO on small buffers.
use ch_backup.Prelude.{
  ℕ, ◌<◌, min, ◌≡◌, refl, inl, none, some, List, [], ◌∷◌, ◌++◌, length, take, drop, ok, arith,
}
use ch_backup.Fifo.{BytesFifo, wanted, read, free, write, resize}
use ch_backup.Fifo.Inv.{contents, IsValid}
use ch_backup.Fifo.Write.{write_lem, write_progress}
use ch_backup.Fifo.Read.{read_lem}
use ch_backup.Fifo.Resize.{resize_lem, read_after_shrink}

abbrev two_bytes : List ℕ
two_bytes = 7 ∷ 8 ∷ []

-- Two bytes behind the middle of eight places.
abbrev behind : BytesFifo
behind = record {
  buffer = 0 ∷ 0 ∷ 0 ∷ 0 ∷ 0 ∷ 7 ∷ 8 ∷ 0 ∷ [];
  size = 8;
  filled = 2;
  read_ptr = 5;
  write_ptr = 7;
}

behind-IsValid : IsValid behind
behind-IsValid = record {
  fits = omega arith;
  read_in = omega arith;
  write_in = omega arith;
  stored = omega arith;
  position = inl refl;
}

write_lem_example :
    let (n, f') = write two_bytes behind in
    (n ≡ min (length two_bytes) (free behind))
    × (contents f' ≡ contents behind ++ take (free behind) two_bytes)
    × IsValid f'
    × (f'.size ≡ behind.size)
write_lem_example = write_lem {f = behind} two_bytes behind-IsValid

write_progress_example :
    let (n, f') = write two_bytes behind in
    (0 < n)
    × (contents behind ++ two_bytes ≡ contents f' ++ drop n two_bytes)
    × IsValid f'
    × (f'.size ≡ behind.size)
write_progress_example =
    write_progress {f = behind} two_bytes behind-IsValid (omega arith) (omega arith)

read_lem_example :
    let (out, f') = read (some 1) behind in
    let n = min (wanted (some 1) behind) behind.filled in
    (out ≡ take n (contents behind))
    × (contents f' ≡ drop n (contents behind))
    × (length out ≡ n)
    × IsValid f'
    × (f'.size ≡ behind.size)
read_lem_example = read_lem {f = behind} (some 1) behind-IsValid

resize_lem_example :
    (f' : BytesFifo) × (resize 7 behind ≡ ok f')
    × (contents f' ≡ contents behind)
    × IsValid f'
    × (f'.size ≡ 7)
resize_lem_example =
    resize_lem {f = behind} 7 behind-IsValid (omega arith) (omega arith) (λ _. omega arith)

read_after_shrink_example :
    (f' : BytesFifo) × (resize 3 behind ≡ ok f') × (f'.filled < length (read none f').0)
read_after_shrink_example =
    read_after_shrink {f = behind} 3 behind-IsValid (omega arith) (omega arith) (omega arith)
      (omega arith)
