-- ===== src/Fifo/Read.antt =====
-- `BytesFIFO.read` on the queue.
use ch_backup.Prelude.{
  ℕ, ◌+◌, ◌-◌, ◌≤◌, ◌<◌, min, ◌≡◌, refl, ◌∙◌, inl, inr, Option, none, some, List, ◌++◌, length,
  take, drop, segment, segment-add, append_assoc, split_at, length-append, length-segment, take_all,
  arith,
}
use native.Mathlib.Decide.{dec_le}
use ch_backup.Fifo.{BytesFifo, read_exactly, wanted, read}
use ch_backup.Fifo.Inv.{IsValid, contents, contents_straight, contents_round, length-contents}

-- What giving out `n` bytes has to return and to leave behind.
pub record Took (f : BytesFifo) (n : ℕ) (out : List ℕ) (f' : BytesFifo) : Type 0 where
  pub valid : IsValid f'
  pub taken : contents f ≡ out ++ contents f'
  pub length_taken : length out ≡ n
  pub size_kept : f'.size ≡ f.size
  pub left : f'.filled + n ≡ f.filled

module _ {f : BytesFifo} (n : ℕ) (v : IsValid f) (some_there : n ≤ f.filled) where
  abbrev short : BytesFifo
  short = record f { read_ptr = f.read_ptr + n; filled = f.filled - n }

  abbrev round : BytesFifo
  round = record f { read_ptr = n - (f.size - f.read_ptr); filled = f.filled - n }

  read_below : f.read_ptr + n ≤ f.size → read_exactly n f ≡ (segment f.read_ptr n f.buffer, short)
  unfolding read_exactly
  read_below h = ground arith

  read_around :
      f.size < f.read_ptr + n
      → read_exactly n f ≡ (
        segment f.read_ptr (f.size - f.read_ptr) f.buffer
            ++ segment 0 (n - (f.size - f.read_ptr)) f.buffer,
        round,
      )
  unfolding read_exactly
  read_around h = ground arith

  straight :
      f.read_ptr + n ≤ f.size
      → f.read_ptr + f.filled ≡ f.write_ptr
      → contents f ≡ segment f.read_ptr n f.buffer ++ contents short
  straight h e = cc (
    contents_straight f (omega arith),
    contents_straight short (omega arith),
    segment-add f.read_ptr n (f.filled - n) f.buffer,
    all,
  )
    where
      all : n + (f.filled - n) ≡ f.filled
      all = omega arith

  going_round :
      f.read_ptr + n ≤ f.size
      → f.read_ptr + f.filled ≡ f.write_ptr + f.size
      → contents f ≡ segment f.read_ptr n f.buffer ++ contents short
  going_round h e = cc (
    contents_round f (omega arith) v.read_in,
    contents_round short (omega arith) (omega arith),
    segment-add f.read_ptr n (f.size - (f.read_ptr + n)) f.buffer,
    append_assoc (segment f.read_ptr n f.buffer)
        (segment (f.read_ptr + n) (f.size - (f.read_ptr + n)) f.buffer)
        (segment 0 (f.read_ptr + f.filled - f.size) f.buffer),
    to_end,
    rest,
  )
    where
      to_end : n + (f.size - (f.read_ptr + n)) ≡ f.size - f.read_ptr
      to_end = omega arith

      rest : f.read_ptr + n + (f.filled - n) - f.size ≡ f.read_ptr + f.filled - f.size
      rest = omega arith

  short-Took : f.read_ptr + n ≤ f.size → Took f n (segment f.read_ptr n f.buffer) short
  short-Took h = record {
    valid = omega arith;
    taken = elim v.position [ inl e ↦ straight h e | inr e ↦ going_round h e.0 ];
    length_taken = length-segment f.read_ptr n f.buffer (omega arith);
    size_kept = refl;
    left = omega arith;
  }

  abbrev both : List ℕ
  both =
      segment f.read_ptr (f.size - f.read_ptr) f.buffer
      ++ segment 0 (n - (f.size - f.read_ptr)) f.buffer

  over_the_end : f.size < f.read_ptr + n → contents f ≡ both ++ contents round
  over_the_end h = cc (
    contents_round f (omega arith) v.read_in,
    contents_straight round (omega (arith, v.position)),
    segment-add 0 (n - (f.size - f.read_ptr)) (f.filled - n) f.buffer,
    append_assoc (segment f.read_ptr (f.size - f.read_ptr) f.buffer)
        (segment 0 (n - (f.size - f.read_ptr)) f.buffer)
        (segment (n - (f.size - f.read_ptr)) (f.filled - n) f.buffer),
    from_start,
    all,
  )
    where
      from_start : 0 + (n - (f.size - f.read_ptr)) ≡ n - (f.size - f.read_ptr)
      from_start = omega arith

      all : n - (f.size - f.read_ptr) + (f.filled - n) ≡ f.read_ptr + f.filled - f.size
      all = omega arith

  length-both : f.size < f.read_ptr + n → length both ≡ n
  length-both h = omega (
    arith,
    v.position,
    length-append (segment f.read_ptr (f.size - f.read_ptr) f.buffer)
        (segment 0 (n - (f.size - f.read_ptr)) f.buffer),
    length-segment f.read_ptr (f.size - f.read_ptr) f.buffer,
    length-segment 0 (n - (f.size - f.read_ptr)) f.buffer,
  )

  round-Took : f.size < f.read_ptr + n → Took f n both round
  round-Took h = record {
    valid = omega arith;
    taken = over_the_end h;
    length_taken = length-both h;
    size_kept = refl;
    left = omega arith;
  }

  read_exactly-Took : let (out, f') = read_exactly n f in Took f n out f'
  read_exactly-Took = elim (dec_le (f.read_ptr + n) f.size) [
    | yes h ↦ rw (read_below h) (short-Took h)
    | no h ↦ rw (read_around (omega arith)) (round-Took (omega arith))
  ]

-- On a valid FIFO read returns the oldest bytes in order, as many as asked for or as there are (all
-- of them for a negative size), leaves the others, and keeps the invariant and the size.
pub read_lem :
    {f : BytesFifo} (size : Option ℕ)
    → IsValid f
    → let (out, f') = read size f in
      let n = min (wanted size f) f.filled in
      (out ≡ take n (contents f))
      × (contents f' ≡ drop n (contents f))
      × (length out ≡ n)
      × IsValid f'
      × (f'.size ≡ f.size)
unfolding read
read_lem {f} size v =
    let n : ℕ = min (wanted size f) f.filled in
    let (out, f') = read_exactly n f in
    let t = read_exactly-Took n v (omega arith) in
    let (taken, left) = split_at n (contents f) out (contents f') t.taken t.length_taken in
    (taken, left, t.length_taken, t.valid, t.size_kept)

pub buffer-read : (size : Option ℕ) (f : BytesFifo) → (read size f).1.buffer ≡ f.buffer
unfolding read read_exactly
buffer-read size f = ground arith

-- With the read pointer beyond the end, `read` gives out the buffer's whole tail and more.
pub read_beyond :
    (f : BytesFifo)
    → f.size < f.read_ptr
    → (read none f).0 ≡ drop f.read_ptr f.buffer ++ take (f.filled + (f.read_ptr - f.size)) f.buffer
unfolding read read_exactly
read_beyond f h = ground arith

-- `read` of no more than there is takes exactly that off the front.
pub read_front :
    {f : BytesFifo} (n : ℕ)
    → IsValid f
    → n ≤ f.filled
    → let (out, f') = read (some n) f in Took f n out f'
unfolding read
read_front {f} n v h = let e : min n f.filled ≡ n = omega arith in rw e (read_exactly-Took n v h)

-- `read` with no size gives out the whole queue.
pub read_all :
    {f : BytesFifo} → IsValid f → ((read none f).0 ≡ contents f) × (length (contents f) ≡ f.filled)
unfolding read
read_all {f} v =
    let r = read_lem none v in
    (
      r.0 ∙ take_all (min f.filled f.filled) (contents f) (omega (arith, length-contents v)),
      length-contents v,
    )
