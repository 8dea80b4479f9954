-- ===== src/Chunking/Stream.antt =====
-- A whole stream through the chunking stage.
use ch_backup.Prelude.{
  ℕ, false, ◌≤◌, ◌<◌, ◌≡◌, refl, sym, ◌∙◌, ◌⊎◌, inl, inr, Option, none, some, List, [], ◌∷◌, ◌++◌,
  length, nil_of_length, append_assoc, append-nil, ltb, if◌then◌else◌, arith, Bool-cases, ltb→lt,
  All, All-append, ok, ◌>>=◌,
}
use ch_backup.Fifo.{BytesFifo, init, read}
use ch_backup.Fifo.Inv.{IsValid, contents, length-contents, init_lem}
use ch_backup.Fifo.Read.{read_all}
use ch_backup.Chunking.{ChunkingStage, new, call, on_done, call_all, process}
use ch_backup.Chunking.Laws.{join, join-append, IsReady, Called, call_lem}

-- `on_done` gives out what the buffer holds: no chunk, or one that is not empty and not full.
on_done-ok :
    (s : ChunkingStage)
    → IsReady s
    → on_done s
      ≡ ok (
        if ltb 0 s.buffer.filled then contents s.buffer ∷ [] else [],
        record s { buffer = (read none s.buffer).1 },
      )
unfolding on_done
on_done-ok s r = let all = read_all r.valid in ground (arith, r.short, all.0, all.1)

call_all-Called :
    (values : List (List ℕ)) (s : ChunkingStage)
    → IsReady s
    → Called s (join values) (call_all values s)
unfolding call_all join
call_all-Called [] s r = (append-nil (contents s.buffer), tt, r, refl)
call_all-Called (value ∷ values) s r =
    go (call value s) (call_lem s value r) (call_all values) (call_all-Called values)
  where
    later :
        (chunks : List (List ℕ)) (t : ChunkingStage) (o : Option (List (List ℕ) × ChunkingStage))
        → Called s value (some (chunks, t))
        → Called t (join values) o
        → Called s
            (value ++ join values)
            (elim o [ none ↦ none | some (more, u) ↦ some (chunks ++ more, u) ])
    later chunks t none c d = d
    later chunks t (some (more, u)) c d = (
      rw (
        ← append_assoc (contents s.buffer) value (join values),
        c.0,
        append_assoc,
        d.0,
        join-append chunks more,
        append_assoc,
      ),
      All-append (λ c. length c ≡ s.chunk_size) chunks more c.1 (rw c.3 at d.1),
      d.2,
      d.3 ∙ c.3,
    )

    go :
        (o : Option (List (List ℕ) × ChunkingStage))
        → Called s value o
        → (all : ChunkingStage → Option (List (List ℕ) × ChunkingStage))
        → ((t : ChunkingStage) → IsReady t → Called t (join values) (all t))
        → Called s (value ++ join values) (elim o [
          | none ↦ none
          | some (chunks, t) ↦ elim (all t) [
            | none ↦ none
            | some (more, u) ↦ some (chunks ++ more, u)
          ]
        ])
    go none c all ih = c
    go (some (chunks, t)) c all ih = later chunks t (all t) c (ih t c.2)

-- The chunks of a stream: full ones, and at the end at most one that is shorter and not empty.
pub record IsCut (k : ℕ) (stream : List ℕ) (chunks : List (List ℕ)) : Type 0 where
  pub full : List (List ℕ)
  pub last : List (List ℕ)
  pub parts : chunks ≡ full ++ last
  pub even : All (λ c. length c ≡ k) full
  pub short : (last ≡ []) ⊎ ((c : List ℕ) × (last ≡ c ∷ []) × (0 < length c) × (length c < k))
  pub whole : join chunks ≡ stream

abbrev last_of : BytesFifo → List (List ℕ)
last_of f = if ltb 0 f.filled then contents f ∷ [] else []

join-last_of : (f : BytesFifo) → IsValid f → join (last_of f) ≡ contents f
unfolding join
join-last_of f v = elim (Bool-cases (ltb 0 f.filled)) [
  | inl some_data ↦ rw (some_data, append-nil)
  | inr empty ↦
      rw empty
        (sym (nil_of_length (contents f) (omega (arith, length-contents v, none_there empty))))
]
  where
    none_there : ltb 0 f.filled ≡ false → f.filled ≡ 0
    none_there e = ground arith

last_of-short :
    (k : ℕ) (f : BytesFifo)
    → IsValid f
    → f.filled < k
    → (last_of f ≡ []) ⊎ ((c : List ℕ) × (last_of f ≡ c ∷ []) × (0 < length c) × (length c < k))
last_of-short k f v h = elim (Bool-cases (ltb 0 f.filled)) [
  | inl some_data ↦ inr (
    contents f,
    rw some_data,
    omega (arith, length-contents v, ltb→lt _ _ some_data),
    omega (arith, length-contents v),
  )
  | inr empty ↦ inl (rw empty)
]

finish :
    (s : ChunkingStage) (stream : List ℕ) (o : Option (List (List ℕ) × ChunkingStage))
    → contents s.buffer ≡ []
    → Called s stream o
    → (chunks : List (List ℕ)) × (elim o [
      | none ↦ none
      | some (cs, t) ↦ some (do (rest, u) ← on_done t; ok (cs ++ rest))
    ]
        ≡ some (ok chunks))
      × IsCut s.chunk_size stream chunks
finish s stream none e c = absurd c
finish s stream (some (cs, t)) e c = (
  cs ++ last_of t.buffer,
  rw (on_done-ok t c.2),
  record {
    full = cs;
    last = last_of t.buffer;
    parts = refl;
    even = c.1;
    short = last_of-short s.chunk_size t.buffer c.2.valid (omega (arith, c.2.short, c.3));
    whole = rw (join-append cs (last_of t.buffer), join-last_of t.buffer c.2.valid, ← c.0, e);
  },
)

abbrev pub fresh : ℕ → ℕ → ChunkingStage
fresh k size = record { chunk_size = k; buffer = init size }

pub fresh-IsReady : (k size : ℕ) → 0 < k → k ≤ size → IsReady (fresh k size)
fresh-IsReady k size pos fits =
    let (valid, sized, empty, _) = init_lem size in
    record {
      positive = pos;
      fits = omega (arith, sized);
      short = omega (arith, empty);
      valid = valid;
    }

-- A new stage with a positive chunk size that fits its buffer ends on every stream, without an
-- error, and yields the stream cut into full chunks and a shorter last one.
pub process_lem :
    (k size : ℕ) (values : List (List ℕ))
    → 0 < k
    → k ≤ size
    → (s : ChunkingStage) × (chunks : List (List ℕ)) × (new k size ≡ ok s)
      × (process values s ≡ some (ok chunks))
      × IsCut k (join values) chunks
unfolding process new
process_lem k size values pos fits =
    let s = fresh k size in
    let (chunks, yielded, is_cut) =
      finish s (join values) (call_all values s) (init_lem size).3
        (call_all-Called values s (fresh-IsReady k size pos fits)) in
    (s, chunks, ground arith, yielded, is_cut)
