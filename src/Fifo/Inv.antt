-- ===== src/Fifo/Inv.antt =====
-- The representation invariant of `BytesFIFO`, and the queue of bytes that a valid one stands for.
use ch_backup.Prelude.{
  ℕ, ◌+◌, ◌-◌, ◌≤◌, ◌≡◌, refl, sym, ◌⊎◌, inl, inr, true, List, [], ◌∷◌, ◌++◌, length, segment,
  splice, take-append-drop, length-replicate, append-nil, leb, if◌then◌else◌, arith, Bool-cases,
  length-segment, nil_of_length, refl, [], length-append,
}
use native.Mathlib.Nat.{add-zero, sub-eq-zero_of_le}
use ch_backup.Fifo.{BytesFifo, init, io_write}

-- The bytes held, oldest first: `filled` bytes from `read_ptr` on, going round at `size`.
pub contents : BytesFifo → List ℕ
contents f =
    if leb (f.read_ptr + f.filled) f.size
    then segment f.read_ptr f.filled f.buffer
    else segment f.read_ptr (f.size - f.read_ptr) f.buffer
      ++ segment 0 (f.read_ptr + f.filled - f.size) f.buffer

pub record IsValid (f : BytesFifo) : Type 0 where
  pub fits : f.filled ≤ f.size
  pub read_in : f.read_ptr ≤ f.size
  pub write_in : f.write_ptr ≤ f.size
  pub stored : f.write_ptr ≤ length f.buffer
  -- the data goes round the end only once the buffer has been written up to there
  pub position :
      (f.read_ptr + f.filled ≡ f.write_ptr)
      ⊎ ((f.read_ptr + f.filled ≡ f.write_ptr + f.size) × (f.size ≤ length f.buffer))

-- Within the buffer a write is a splice.
pub io_write-splice :
    (buffer : List ℕ) (pos : ℕ) (d : List ℕ)
    → pos ≤ length buffer
    → io_write buffer pos d ≡ splice buffer pos d
io_write-splice buffer pos [] h = rw add-zero (sym (take-append-drop pos buffer))
io_write-splice buffer pos (b ∷ bs) h = rw (sub-eq-zero_of_le h, append-nil)

init-IsValid : (n : ℕ) → IsValid (init n)
unfolding init
init-IsValid n = omega (arith, length-replicate {A = ℕ} n 0)

-- The two shapes of the data: up to the end of the buffer, or round it.
pub contents_straight :
    (f : BytesFifo)
    → f.read_ptr + f.filled ≤ f.size
    → contents f ≡ segment f.read_ptr f.filled f.buffer
unfolding contents
contents_straight f h = ground arith

pub contents_round :
    (f : BytesFifo)
    → f.size ≤ f.read_ptr + f.filled
    → f.read_ptr ≤ f.size
    → contents f
      ≡ segment f.read_ptr (f.size - f.read_ptr) f.buffer
        ++ segment 0 (f.read_ptr + f.filled - f.size) f.buffer
unfolding contents
contents_round f h k = elim (Bool-cases (leb (f.read_ptr + f.filled) f.size)) [
  | inl within ↦ rw (within, to_end within, none_left within, append-nil)
  | inr beyond ↦ rw beyond
]
  where
    to_end : leb (f.read_ptr + f.filled) f.size ≡ true → f.size - f.read_ptr ≡ f.filled
    to_end w = ground arith

    none_left : leb (f.read_ptr + f.filled) f.size ≡ true → f.read_ptr + f.filled - f.size ≡ 0
    none_left w = ground arith

pub length-contents : {f : BytesFifo} → IsValid f → length (contents f) ≡ f.filled
length-contents {f} v = elim v.position [
  | inl e ↦
      rw (
        contents_straight f (omega arith),
        length-segment f.read_ptr f.filled f.buffer (omega arith),
      )
  | inr e ↦ rw (contents_round f (omega arith) v.read_in) (
      omega (
        arith,
        length-append (segment f.read_ptr (f.size - f.read_ptr) f.buffer)
            (segment 0 (f.read_ptr + f.filled - f.size) f.buffer),
        length-segment f.read_ptr (f.size - f.read_ptr) f.buffer,
        length-segment 0 (f.read_ptr + f.filled - f.size) f.buffer,
      ))
]

-- A new FIFO is valid, empty, and of the size asked for.
pub init_lem :
    (n : ℕ)
    → IsValid (init n) × ((init n).size ≡ n) × ((init n).filled ≡ 0) × (contents (init n) ≡ [])
unfolding init
init_lem n = (
  init-IsValid n,
  refl,
  refl,
  nil_of_length (contents (init n)) (length-contents (init-IsValid n)),
)
