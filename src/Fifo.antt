-- ===== src/Fifo.antt =====
-- ch_backup/storage/async_pipeline/base_pipeline/bytes_fifo.py: the circular byte buffer of the
-- upload pipeline. `io.BytesIO` is the list of its bytes with an explicit position. Bytes are only
-- moved, so a byte is any number. Python's sizes are integers: where `contiguous_size` can fall
-- below zero (a pointer beyond `_size`) the model has a branch of its own, with what `BytesIO.read`
-- and slicing do for a negative number.
pub mod Inv
mod Buffer
pub mod Write
pub mod Read
pub mod Resize
mod Tests
use ch_backup.Prelude.{
  ℕ, ◌+◌, ◌-◌, min, Bool, Option, none, some, List, [], ◌∷◌, ◌++◌, length, take, drop, replicate,
  splice, ltb, leb, eqb, if◌then◌else◌, Result, ok, err, value_error,
}

-- `BytesIO.seek(pos); BytesIO.read(n)` for `n` at least 0
abbrev pub io_read : List ℕ → ℕ → ℕ → List ℕ
io_read buffer pos n = take n (drop pos buffer)

-- `BytesIO.seek(pos); BytesIO.write(data)`: a gap behind the end is filled with zeros, and a write
-- of no bytes changes nothing
abbrev pub io_write : List ℕ → ℕ → List ℕ → List ℕ
io_write buffer pos [] = buffer
io_write buffer pos (b ∷ bs) = splice (buffer ++ replicate (pos - length buffer) 0) pos (b ∷ bs)

pub record BytesFifo : Type 0 where
  pub buffer : List ℕ
  pub size : ℕ
  pub filled : ℕ
  pub read_ptr : ℕ
  pub write_ptr : ℕ

pub init : ℕ → BytesFifo
init init_size = record {
  buffer = replicate init_size 0;
  size = init_size;
  filled = 0;
  read_ptr = 0;
  write_ptr = 0;
}

-- The body of `read` once `size` is the number of bytes to give out.
read_exactly : ℕ → BytesFifo → List ℕ × BytesFifo
read_exactly n f =
    if leb f.read_ptr f.size
    then (let contiguous_read = min (f.size - f.read_ptr) n in
        let head = io_read f.buffer f.read_ptr contiguous_read in
        if ltb contiguous_read n
        then (
          head ++ io_read f.buffer 0 (n - contiguous_read),
          record f { read_ptr = n - contiguous_read; filled = f.filled - n },
        )
        else (head, record f { read_ptr = f.read_ptr + contiguous_read; filled = f.filled - n }))
    else (
        -- `contiguous_size` is negative, and so is `contiguous_read`: `read` gives all that is left
        let leftover_size = n + (f.read_ptr - f.size) in
        (
          drop f.read_ptr f.buffer ++ io_read f.buffer 0 leftover_size,
          record f { read_ptr = leftover_size; filled = f.filled - n },
        ))

-- `none` is a negative size
pub wanted : Option ℕ → BytesFifo → ℕ
wanted none f = f.filled
wanted (some n) f = n

pub read : Option ℕ → BytesFifo → List ℕ × BytesFifo
unfolding wanted
read size f = read_exactly (min (wanted size f) f.filled) f

pub free : BytesFifo → ℕ
free f = f.size - f.filled

-- The `if write_size:` part of `write`.
write_some : List ℕ → ℕ → BytesFifo → BytesFifo
write_some bytes n f =
    if leb f.write_ptr f.size
    then (let contiguous_size = f.size - f.write_ptr in
        let contiguous_write = min contiguous_size n in
        let buffer = io_write f.buffer f.write_ptr (take contiguous_write bytes) in
        if ltb contiguous_size n
        then record f {
          buffer = io_write buffer 0 (drop contiguous_write (take n bytes));
          write_ptr = n - contiguous_write;
        }
        else record f { buffer = buffer; write_ptr = f.write_ptr + contiguous_write })
    else (
        -- a negative `contiguous_write` counts from the end of `data`
        let over = f.write_ptr - f.size in
        let cut = length bytes - over in
        let buffer = io_write f.buffer f.write_ptr (take cut bytes) in
        record f { buffer = io_write buffer 0 (drop cut (take n bytes)); write_ptr = n + over })

pub write : List ℕ → BytesFifo → ℕ × BytesFifo
unfolding free
write bytes f =
    let write_size = min (length bytes) (free f) in
    if eqb write_size 0
    then (0, f)
    else (let f' = write_some bytes write_size f in
        (write_size, record f' { filled = f.filled + write_size }))

pub flush : BytesFifo → BytesFifo
flush f = record f { filled = 0; read_ptr = 0; write_ptr = 0 }

pub is_empty : BytesFifo → Bool
is_empty f = eqb f.filled 0

pub is_full : BytesFifo → Bool
is_full f = eqb f.filled f.size

-- The copy of non-contiguous data to the start of the buffer.
compact : BytesFifo → BytesFifo
compact f =
    let (old, f') = read (some f.filled) f in
    record f' {
      buffer = io_write f'.buffer 0 old;
      filled = length old;
      read_ptr = 0;
      write_ptr = length old;
    }

pub resize : ℕ → BytesFifo → Result BytesFifo
unfolding compact
resize new_size f =
    if ltb new_size 1
    then err value_error
    else if ltb new_size f.filled
    then err value_error
    else (let moved = if leb f.write_ptr f.read_ptr then compact f else f in
        ok (record moved { size = new_size }))
