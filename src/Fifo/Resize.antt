-- ===== src/Fifo/Resize.antt =====
-- `BytesFIFO.resize` on the queue.
use ch_backup.Prelude.{
  ℕ, ◌+◌, ◌-◌, ◌≤◌, ◌<◌, ◌≡◌, refl, none, some, length, take, drop, splice, segment-splice_self,
  length-splice, take_all, length-append, length-take, length-drop, arith, ok,
}
use native.Mathlib.Decide.{dec_le}
use ch_backup.Fifo.{BytesFifo, wanted, read, compact, resize}
use ch_backup.Fifo.Inv.{IsValid, contents, contents_straight, length-contents, io_write-splice}
use ch_backup.Fifo.Read.{read_lem, buffer-read, read_beyond}

-- `compact` moves the data to the start of the buffer.
compact-buffer :
    {f : BytesFifo}
    → IsValid f
    → compact f ≡ record f {
      buffer = splice f.buffer 0 (contents f);
      filled = f.filled;
      read_ptr = 0;
      write_ptr = f.filled;
    }
unfolding compact wanted
compact-buffer {f} v = rw (
  all,
  buffer-read,
  size,
  io_write-splice f.buffer 0 (contents f) (omega arith),
  length-contents v,
)
  where
    all : (read (some f.filled) f).0 ≡ contents f
    all = ground (
      arith,
      read_lem (some f.filled) v,
      take_all f.filled (contents f) (omega (arith, length-contents v)),
    )

    size : (read (some f.filled) f).1.size ≡ f.size
    size = (read_lem (some f.filled) v).4

-- What a new size has to keep.
record Kept (f : BytesFifo) (n : ℕ) (f' : BytesFifo) : Type 0 where
  pub valid : IsValid f'
  pub same : contents f' ≡ contents f
  pub resized : f'.size ≡ n

module _ {f : BytesFifo} (n : ℕ) (v : IsValid f) (room : f.filled ≤ n) where
  abbrev moved : BytesFifo
  moved = record f {
    buffer = splice f.buffer 0 (contents f);
    read_ptr = 0;
    write_ptr = f.filled;
    size = n;
  }

  moved-Kept : Kept f n moved
  moved-Kept = record {
    valid = omega (arith, length-contents v, length-splice f.buffer 0 (contents f) (omega arith));
    same = cc (
      contents_straight moved (omega arith),
      segment-splice_self 0 f.buffer (contents f) (omega arith),
      length-contents v,
    );
    resized = refl;
  }

  abbrev stayed : BytesFifo
  stayed = record f { size = n }

  stayed-Kept : f.read_ptr < f.write_ptr → f.write_ptr ≤ n → Kept f n stayed
  stayed-Kept h k = record {
    valid = omega (arith, v.position);
    same = cc (
      contents_straight stayed (omega (arith, v.position)),
      contents_straight f (omega (arith, v.position)),
    );
    resized = refl;
  }

-- A new size of at least one byte, with room for the data and for the place of the data when it is
-- contiguous, keeps the queue and the invariant of a valid FIFO.
pub resize_lem :
    {f : BytesFifo} (n : ℕ)
    → IsValid f
    → 1 ≤ n
    → f.filled ≤ n
    → (f.read_ptr < f.write_ptr → f.write_ptr ≤ n)
    → (f' : BytesFifo) × (resize n f ≡ ok f')
      × (contents f' ≡ contents f)
      × IsValid f'
      × (f'.size ≡ n)
unfolding resize
resize_lem {f} n v pos room place = elim (dec_le f.write_ptr f.read_ptr) [
  | yes h ↦
      let k = moved-Kept n v room in
      (moved n v room, ground (arith, compact-buffer v), k.same, k.valid, k.resized)
  | no h ↦
      let k = stayed-Kept n v room (omega arith) (place (omega arith)) in
      (stayed n v room, ground arith, k.same, k.valid, k.resized)
]

-- On a valid FIFO with contiguous data that a smaller size leaves beyond the end, resize accepts
-- the size, and the next read of everything gives out more bytes than the FIFO holds.
pub read_after_shrink :
    {f : BytesFifo} (n : ℕ)
    → IsValid f
    → 1 ≤ f.filled
    → f.filled ≤ n
    → f.read_ptr < f.write_ptr
    → n < f.read_ptr
    → (f' : BytesFifo) × (resize n f ≡ ok f') × (f'.filled < length (read none f').0)
unfolding resize
read_after_shrink {f} n v some_data room h k = (record f { size = n }, ground arith, more)
  where
    more : f.filled < length (read none (record f { size = n })).0
    more = rw (read_beyond (record f { size = n }) k) (
        omega (
          arith,
          v.position,
          length-append (drop f.read_ptr f.buffer) (take (f.filled + (f.read_ptr - n)) f.buffer),
          length-drop f.read_ptr f.buffer,
          length-take (f.filled + (f.read_ptr - n)) f.buffer,
        ))
