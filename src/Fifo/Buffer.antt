-- ===== src/Fifo/Buffer.antt =====
-- What in-place writes do to the data of a circular buffer: the three ways in which `write` can
-- meet the end of the buffer.
use ch_backup.Prelude.{
  ℕ, ◌+◌, ◌≤◌, ◌≡◌, List, ◌++◌, length, segment, splice, arith, segment-add, segment-splice_before,
  segment-splice_after, segment-splice_self, append_assoc,
}

-- The data ends before the written place, and the write meets no end.
pub write_straight :
    (buf d : List ℕ) (r k w : ℕ)
    → r + k ≡ w
    → w ≤ length buf
    → segment r (k + length d) (splice buf w d) ≡ segment r k buf ++ d
write_straight buf d r k w e h = rw (
  segment-add r k (length d) (splice buf w d),
  segment-splice_before r k w buf d (omega arith) h,
  e,
  segment-splice_self w buf d h,
)

-- The write fills the buffer up to `size` and goes on at its start, before the data.
pub write_split :
    (buf d e : List ℕ) (r k w size : ℕ)
    → r + k ≡ w
    → w + length d ≡ size
    → w ≤ length buf
    → length e ≤ r
    → segment r (k + length d) (splice (splice buf w d) 0 e)
        ++ segment 0 (length e) (splice (splice buf w d) 0 e)
      ≡ segment r k buf ++ (d ++ e)
write_split buf d e r k w size h hs hw he = rw (
  segment-splice_after r (k + length d) 0 (splice buf w d) e (omega arith) (omega arith),
  write_straight buf d r k w h hw,
  segment-splice_self 0 (splice buf w d) e (omega arith),
  append_assoc,
)

-- The data already goes round the end; the write stays below it.
pub write_round :
    (buf d : List ℕ) (r m w : ℕ)
    → w + length d ≤ r
    → w ≤ length buf
    → segment r m (splice buf w d) ++ segment 0 (w + length d) (splice buf w d)
      ≡ (segment r m buf ++ segment 0 w buf) ++ d
write_round buf d r m w h hw = rw (
  segment-splice_after r m w buf d h hw,
  write_straight buf d 0 w w (omega arith) hw,
  append_assoc,
)
