-- ===== src/Fifo/Write.antt =====
-- `BytesFIFO.write` on the queue.
use ch_backup.Prelude.{
  ℕ, ◌+◌, ◌-◌, ◌≤◌, ◌<◌, min, ◌≡◌, refl, inl, inr, List, ◌++◌, length, take, drop, splice,
  length-take, length-drop, length-splice, take-append-drop, take-take, arith, Bool-cases, eqb,
  eqb→eq, append-nil, take-min, drop-min, append_assoc,
}
use native.Mathlib.Decide.{dec_le}
use ch_backup.Fifo.{BytesFifo, write_some, write, free}
use ch_backup.Fifo.Inv.{IsValid, contents, contents_straight, contents_round, io_write-splice}
use ch_backup.Fifo.Buffer.{write_straight, write_split, write_round}

-- What a write of `n` of the bytes `d` into `f` has to leave behind.
pub record Wrote (f : BytesFifo) (d : List ℕ) (n : ℕ) (f' : BytesFifo) : Type 0 where
  pub valid : IsValid f'
  pub appended : contents f' ≡ contents f ++ take n d
  pub size_kept : f'.size ≡ f.size
  pub counted : f'.filled ≡ f.filled + n

module _ {f : BytesFifo} (d : List ℕ) (n : ℕ) (v : IsValid f) (room : n ≤ f.size - f.filled)
    (some_bytes : n ≤ length d) where
  abbrev after : BytesFifo
  after = record (write_some d n f) { filled = f.filled + n }

  -- The write stays below the end of the buffer.
  abbrev below : List ℕ
  below = splice f.buffer f.write_ptr (take n d)

  write_below :
      f.write_ptr + n ≤ f.size
      → after ≡ record f { buffer = below; write_ptr = f.write_ptr + n; filled = f.filled + n }
  unfolding write_some
  write_below h = ground (arith, io_write-splice f.buffer f.write_ptr (take n d) v.stored)

  -- The write goes on at the start of the buffer.
  abbrev around : List ℕ
  around =
      splice (splice f.buffer f.write_ptr (take (f.size - f.write_ptr) d)) 0
        (drop (f.size - f.write_ptr) (take n d))

  write_around :
      f.size < f.write_ptr + n
      → after ≡ record f {
        buffer = around;
        write_ptr = n - (f.size - f.write_ptr);
        filled = f.filled + n;
      }
  unfolding write_some
  write_around h = ground (
    arith,
    io_write-splice f.buffer f.write_ptr (take (f.size - f.write_ptr) d) v.stored,
    io_write-splice (splice f.buffer f.write_ptr (take (f.size - f.write_ptr) d)) 0
        (drop (f.size - f.write_ptr) (take n d)) (omega arith),
  )

  len : length (take n d) ≡ n
  len = omega (arith, length-take n d)

  abbrev ended : BytesFifo
  ended = record f { buffer = below; write_ptr = f.write_ptr + n; filled = f.filled + n }

  below_straight :
      f.write_ptr + n ≤ f.size
      → f.read_ptr + f.filled ≡ f.write_ptr
      → contents ended ≡ contents f ++ take n d
  below_straight h e = cc (
    contents_straight ended (omega arith),
    contents_straight f (omega arith),
    write_straight f.buffer (take n d) f.read_ptr f.filled f.write_ptr e v.stored,
    len,
  )

  below_round :
      f.write_ptr + n ≤ f.size
      → f.read_ptr + f.filled ≡ f.write_ptr + f.size
      → contents ended ≡ contents f ++ take n d
  below_round h e = cc (
    contents_round ended (omega arith) v.read_in,
    contents_round f (omega arith) v.read_in,
    write_round f.buffer (take n d) f.read_ptr (f.size - f.read_ptr) f.write_ptr
        (omega (arith, len)) v.stored,
    len,
    before,
    behind,
  )
    where
      before : f.read_ptr + f.filled - f.size ≡ f.write_ptr
      before = omega arith

      behind : f.read_ptr + (f.filled + n) - f.size ≡ f.write_ptr + n
      behind = omega arith

  below-Wrote : f.write_ptr + n ≤ f.size → Wrote f d n ended
  below-Wrote h = record {
    valid = omega (arith, len, length-splice f.buffer f.write_ptr (take n d) v.stored);
    appended = elim v.position [ inl e ↦ below_straight h e | inr e ↦ below_round h e.0 ];
    size_kept = refl;
    counted = refl;
  }

  abbrev wrapped : BytesFifo
  wrapped = record f {
    buffer = around;
    write_ptr = n - (f.size - f.write_ptr);
    filled = f.filled + n;
  }

  -- the bytes before the end of the buffer, and those behind it
  abbrev front : List ℕ
  front = take (f.size - f.write_ptr) d

  abbrev back : List ℕ
  back = drop (f.size - f.write_ptr) (take n d)

  length-front : f.size < f.write_ptr + n → length front ≡ f.size - f.write_ptr
  length-front h = omega (arith, length-take (f.size - f.write_ptr) d)

  length-back : length back ≡ n - (f.size - f.write_ptr)
  length-back = omega (arith, len, length-drop (f.size - f.write_ptr) (take n d))

  front-append-back : f.size < f.write_ptr + n → front ++ back ≡ take n d
  front-append-back h =
      rw (← take-take (f.size - f.write_ptr) n d (omega arith))
        (take-append-drop (f.size - f.write_ptr) (take n d))

  straight : f.size < f.write_ptr + n → f.read_ptr + f.filled ≡ f.write_ptr
  straight h = omega (arith, v.position)

  contents-wrapped : f.size < f.write_ptr + n → contents wrapped ≡ contents f ++ take n d
  contents-wrapped h = cc (
    contents_round wrapped (omega (arith, straight h)) v.read_in,
    contents_straight f (omega (arith, straight h)),
    write_split f.buffer front back f.read_ptr f.filled f.write_ptr f.size (straight h)
        (omega (arith, length-front h)) v.stored (omega (arith, length-back, straight h)),
    front-append-back h,
    to_end,
    from_start,
  )
    where
      to_end : f.filled + length front ≡ f.size - f.read_ptr
      to_end = omega (arith, length-front h, straight h)

      from_start : f.read_ptr + (f.filled + n) - f.size ≡ length back
      from_start = omega (arith, length-back, straight h)

  wrapped-IsValid : f.size < f.write_ptr + n → IsValid wrapped
  wrapped-IsValid h = omega (
    arith,
    straight h,
    length-front h,
    length-back,
    length-splice f.buffer f.write_ptr front v.stored,
    length-splice (splice f.buffer f.write_ptr front) 0 back (omega arith),
  )

  around-Wrote : f.size < f.write_ptr + n → Wrote f d n wrapped
  around-Wrote h = record {
    valid = wrapped-IsValid h;
    appended = contents-wrapped h;
    size_kept = refl;
    counted = refl;
  }

  after-Wrote : Wrote f d n after
  after-Wrote = elim (dec_le (f.write_ptr + n) f.size) [
    | yes h ↦ rw (write_below h) (below-Wrote h)
    | no h ↦ rw (write_around (omega arith)) (around-Wrote (omega arith))
  ]

-- On a valid FIFO write takes as many bytes as fit, returns their number, appends exactly those
-- bytes in order, and keeps the invariant and the size.
pub write_lem :
    {f : BytesFifo} (d : List ℕ)
    → IsValid f
    → let (n, f') = write d f in
      (n ≡ min (length d) (free f))
      × (contents f' ≡ contents f ++ take (free f) d)
      × IsValid f'
      × (f'.size ≡ f.size)
unfolding write
write_lem {f} d v = elim (Bool-cases (eqb (min (length d) (f.size - f.filled)) 0)) [
  | inl nothing ↦ rw nothing (
    omega (arith, eqb→eq _ _ nothing),
    rw (← take-min d (f.size - f.filled), eqb→eq _ _ nothing, append-nil),
    v,
    refl,
  )
  | inr something ↦
      let w = after-Wrote d (min (length d) (f.size - f.filled)) v (omega arith) (omega arith) in
      rw something (refl, rw (← take-min d (f.size - f.filled)) w.appended, w.valid, w.size_kept)
]

-- In a valid FIFO that is not full, write makes progress on a value of at least one byte, and what
-- it leaves of the value follows on the queue.
pub write_progress :
    {f : BytesFifo} (d : List ℕ)
    → IsValid f
    → f.filled < f.size
    → 0 < length d
    → let (n, f') = write d f in
      (0 < n) × (contents f ++ d ≡ contents f' ++ drop n d) × IsValid f' × (f'.size ≡ f.size)
unfolding free
write_progress {f} d v room some_data =
    let w = write_lem d v in
    (omega (arith, w.0), rw (w.0, w.1, drop-min, append_assoc, take-append-drop), w.2, w.3)
