-- ===== src/Chunking.antt =====
-- ch_backup/storage/async_pipeline/stages/filesystem/chunking_stage.py: `ChunkingStage` cuts the
-- byte stream into chunks of one size. A generator is the list of what it yields. The two `while`
-- loops take fuel, and give `none` when it runs out.
pub mod Laws
pub mod Stream
mod Tests
use ch_backup.Prelude.{
  ℕ, zero, suc, true, false, Option, none, some, List, [], ◌∷◌, ◌++◌, length, drop, ltb, leb, eqb,
  if◌then◌else◌, Result, ok, err, ◌>>=◌, value_error, assertion_error,
}
use ch_backup.Fifo.{BytesFifo, init, read, write}

pub record ChunkingStage : Type 0 where
  pub chunk_size : ℕ
  pub buffer : BytesFifo

-- `__init__`
pub new : ℕ → ℕ → Result ChunkingStage
new chunk_size buffer_size =
    if ltb buffer_size chunk_size
    then err value_error
    else ok (record { chunk_size = chunk_size; buffer = init buffer_size })

-- what a generator's later rounds yield, behind what it has yielded
abbrev pub Yielded : Type 0
Yielded = Option (List (List ℕ) × BytesFifo)

after_chunks : List (List ℕ) → Yielded → Yielded
after_chunks chunks none = none
after_chunks chunks (some (more, buffer)) = some (chunks ++ more, buffer)

-- `while len(self._buffer) >= self._chunk_size`
cut : ℕ → ℕ → BytesFifo → Yielded
cut zero chunk_size buffer = none
cut (suc fuel) chunk_size buffer = elim (leb chunk_size buffer.filled) [
  | true ↦
      (let (chunk, buffer') = read (some chunk_size) buffer in
        after_chunks (chunk ∷ []) (cut fuel chunk_size buffer'))
  | false ↦ some ([], buffer)
]

-- `while len(value) > 0`
feed : ℕ → ℕ → List ℕ → BytesFifo → Yielded
feed zero chunk_size value buffer = none
feed (suc fuel) chunk_size [] buffer = some ([], buffer)
feed (suc fuel) chunk_size (b ∷ bs) buffer =
    let (written, buffer') = write (b ∷ bs) buffer in
    elim (cut (suc buffer'.size) chunk_size buffer') [
      | none ↦ none
      | some (chunks, buffer'') ↦
          after_chunks chunks (feed fuel chunk_size (drop written (b ∷ bs)) buffer'')
    ]

-- `__call__`: a round of the outer loop takes at least one byte, so their number is fuel enough
pub call : List ℕ → ChunkingStage → Option (List (List ℕ) × ChunkingStage)
unfolding feed
call value s = elim (feed (suc (length value)) s.chunk_size value s.buffer) [
  | none ↦ none
  | some (chunks, buffer) ↦ some (chunks, record s { buffer = buffer })
]

pub on_done : ChunkingStage → Result (List (List ℕ) × ChunkingStage)
on_done s =
    if ltb s.buffer.filled s.chunk_size
    then (let (rest, buffer) = read none s.buffer in
        ok (if ltb 0 (length rest) then rest ∷ [] else [], record s { buffer = buffer }))
    else err assertion_error

-- The calls of a stage over the values of a stream: `FlatMap.process` of base_pipeline/flat_map.py,
-- with the `on_start` that this handler does not define.
call_all : List (List ℕ) → ChunkingStage → Option (List (List ℕ) × ChunkingStage)
call_all [] s = some ([], s)
call_all (value ∷ values) s = elim (call value s) [
  | none ↦ none
  | some (chunks, s') ↦ elim (call_all values s') [
    | none ↦ none
    | some (more, s'') ↦ some (chunks ++ more, s'')
  ]
]

pub process : List (List ℕ) → ChunkingStage → Option (Result (List (List ℕ)))
unfolding call_all
process values s = elim (call_all values s) [
  | none ↦ none
  | some (chunks, s') ↦ some (do (rest, s'') ← on_done s'; ok (chunks ++ rest))
]
