-- ===== src/Chunking/Laws.antt =====
-- The two loops of `ChunkingStage.__call__`, and a stream cut into chunks.
use ch_backup.Prelude.{
  ℕ, true, false, zero, suc, ◌≤◌, ◌<◌, ◌≡◌, refl, ◌∙◌, inl, inr, Option, none, some, List, [], ◌∷◌,
  ◌++◌, length, drop, length-drop, append_assoc, append-nil, leb, arith, Bool-cases, All,
  All-append,
}
use mathlib.Core.Path.{subst}
use ch_backup.Fifo.{BytesFifo, read, write}
use ch_backup.Fifo.Inv.{IsValid, contents}
use ch_backup.Fifo.Read.{Took, read_front}
use ch_backup.Fifo.Write.{write_progress}
use ch_backup.Chunking.{ChunkingStage, Yielded, after_chunks, cut, feed, call}

-- the bytes of a list of chunks
unfoldable pub join : List (List ℕ) → List ℕ
join [] = []
join (c ∷ cs) = c ++ join cs

pub join-append : (xs ys : List (List ℕ)) → join (xs ++ ys) ≡ join xs ++ join ys
unfolding join
join-append [] ys = refl
join-append (x ∷ xs) ys = rw (join-append xs ys, append_assoc)

-- What a loop that starts with `before` in its buffer or still to come has to yield and to leave.
pub record Cut (size chunk_size : ℕ) (before : List ℕ) (chunks : List (List ℕ)) (f : BytesFifo)
    : Type 0 where
  pub whole : before ≡ join chunks ++ contents f
  pub even : All (λ c. length c ≡ chunk_size) chunks
  pub short : f.filled < chunk_size
  pub valid : IsValid f
  pub sized : f.size ≡ size

abbrev pub Yields : ℕ → ℕ → List ℕ → Option (List (List ℕ) × BytesFifo) → Type 0
Yields size chunk_size before none = ⊥
Yields size chunk_size before (some (chunks, f)) = Cut size chunk_size before chunks f

-- Chunks that come first.
after_chunks-Yields :
    (size k : ℕ) (before rest : List ℕ) (chunks : List (List ℕ)) (later : Yielded)
    → before ≡ join chunks ++ rest
    → All (λ c. length c ≡ k) chunks
    → Yields size k rest later
    → Yields size k before (after_chunks chunks later)
unfolding after_chunks
after_chunks-Yields size k before rest chunks none e even y = y
after_chunks-Yields size k before rest chunks (some (more, f)) e even y = record {
  whole = rw (e, y.whole, join-append chunks more, append_assoc);
  even = All-append (λ c. length c ≡ k) chunks more even y.even;
  short = y.short;
  valid = y.valid;
  sized = y.sized;
}

cut_more :
    (fuel k : ℕ) (f : BytesFifo)
    → leb k f.filled ≡ true
    → cut (suc fuel) k f ≡ after_chunks ((read (some k) f).0 ∷ []) (cut fuel k (read (some k) f).1)
unfolding cut
cut_more fuel k f h = rw (h, cut)

cut_done : (fuel k : ℕ) (f : BytesFifo) → leb k f.filled ≡ false → cut (suc fuel) k f ≡ some ([], f)
unfolding cut
cut_done fuel k f h = rw (h, cut)

done-Cut : (k : ℕ) (f : BytesFifo) → f.filled < k → IsValid f → Cut f.size k (contents f) [] f
unfolding join
done-Cut k f h v = record { whole = refl; even = tt; short = h; valid = v; sized = refl }

-- One more chunk, and what the rest of the loop yields.
cut_next :
    (fuel k : ℕ) (f : BytesFifo)
    → (let (out, f') = read (some k) f in
        Took f k out f'
        → Yields f'.size k (contents f') (cut fuel k f')
        → Yields f.size k (contents f) (after_chunks (out ∷ []) (cut fuel k f')))
unfolding join
cut_next fuel k f t rest =
    let (out, f') = read (some k) f in
    after_chunks-Yields f.size k (contents f) (contents f') (out ∷ []) (cut fuel k f')
      (rw append-nil t.taken) (t.length_taken, tt) (rw t.size_kept at rest)

cut-Yields :
    (fuel k : ℕ) (f : BytesFifo)
    → 0 < k
    → f.filled < fuel
    → IsValid f
    → Yields f.size k (contents f) (cut fuel k f)
cut-Yields zero k f pos enough v = absurd (omega arith)
cut-Yields (suc fuel) k f pos enough v = elim (Bool-cases (leb k f.filled)) [
  | inl more ↦
      let t = read_front k v (ground arith) in
      rw (cut_more fuel k f more) (
        cut_next fuel k f t
          (cut-Yields fuel k (read (some k) f).1 pos (omega (arith, t.left)) t.valid))
  | inr done ↦ rw (cut_done fuel k f done) (done-Cut k f (ground arith) v)
]

-- The chunks cut in one round, and what later rounds make of the state that it leaves.
round-Yields :
    (size k : ℕ) (all before rest : List ℕ) (cuts : Yielded) (later : BytesFifo → Yielded)
    → all ≡ before ++ rest
    → Yields size k before cuts
    → ((g : BytesFifo)
        → g.filled < k
        → IsValid g
        → g.size ≡ size
        → Yields size k (contents g ++ rest) (later g))
    → Yields size k all
        (elim cuts [ none ↦ none | some (chunks, g) ↦ after_chunks chunks (later g) ])
round-Yields size k all before rest none later e y go = y
round-Yields size k all before rest (some (chunks, g)) later e y go =
    after_chunks-Yields size k all (contents g ++ rest) chunks (later g)
      (rw (e, y.whole, append_assoc)) y.even (go g y.short y.valid y.sized)

feed-Yields :
    (fuel k size : ℕ) (value : List ℕ) (f : BytesFifo)
    → 0 < k
    → k ≤ size
    → length value < fuel
    → f.filled < k
    → IsValid f
    → f.size ≡ size
    → Yields size k (contents f ++ value) (feed fuel k value f)
unfolding feed
feed-Yields zero k size value f pos fits enough short v e = absurd (omega arith)
feed-Yields (suc fuel) k size [] f pos fits enough short v e =
    rw append-nil (subst (λ n. Cut n k (contents f) [] f) e (done-Cut k f short v))
feed-Yields (suc fuel) k size (b ∷ bs) f pos fits enough short v e =
    let (n, f') = write (b ∷ bs) f in
    let w = write_progress (b ∷ bs) v (omega arith) (omega arith) in
    round-Yields size k (contents f ++ b ∷ bs) (contents f') (drop n (b ∷ bs))
      (cut (suc f'.size) k f') (feed fuel k (drop n (b ∷ bs))) w.1
      (subst (λ m. Yields m k (contents f') (cut (suc f'.size) k f')) (w.3 ∙ e)
        (cut-Yields (suc f'.size) k f' pos (omega (arith, w.2)) w.2))
      (λ g.
        feed-Yields fuel k size (drop n (b ∷ bs)) g pos fits
          (omega (arith, w.0, length-drop n (b ∷ bs))))

-- The state of a stage between two calls: the buffer holds less than one chunk and has room for one.
pub record IsReady (s : ChunkingStage) : Type 0 where
  pub positive : 0 < s.chunk_size
  pub fits : s.chunk_size ≤ s.buffer.size
  pub short : s.buffer.filled < s.chunk_size
  pub valid : IsValid s.buffer

abbrev pub Called : ChunkingStage → List ℕ → Option (List (List ℕ) × ChunkingStage) → Type 0
Called s value none = ⊥
Called s value (some (chunks, s')) =
    (contents s.buffer ++ value ≡ join chunks ++ contents s'.buffer)
    × All (λ c. length c ≡ s.chunk_size) chunks
    × IsReady s'
    × (s'.chunk_size ≡ s.chunk_size)

-- A call of a ready stage ends, yields full chunks only, neither loses nor reorders a byte, and
-- leaves the stage ready for the next call.
pub call_lem : (s : ChunkingStage) (value : List ℕ) → IsReady s → Called s value (call value s)
unfolding call
call_lem s value r = go (feed (suc (length value)) s.chunk_size value s.buffer) (
    feed-Yields (suc (length value)) s.chunk_size s.buffer.size value s.buffer r.positive r.fits
      (omega arith) r.short r.valid refl)
  where
    go :
        (o : Yielded)
        → Yields s.buffer.size s.chunk_size (contents s.buffer ++ value) o
        → Called s value
            (elim o [ none ↦ none | some (chunks, f) ↦ some (chunks, record s { buffer = f }) ])
    go none y = y
    go (some (chunks, f)) y = (
      y.whole,
      y.even,
      record {
        positive = r.positive;
        fits = omega (arith, y.sized, r.fits);
        short = y.short;
        valid = y.valid;
      },
      refl,
    )
