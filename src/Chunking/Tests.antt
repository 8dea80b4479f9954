-- ===== src/Chunking/Tests.antt =====
-- The theorems of the stage on a short stream.
use ch_backup.Prelude.{ℕ, ◌≡◌, some, List, [], ◌∷◌, ok, arith}
use ch_backup.Chunking.{ChunkingStage, new, call, process}
use ch_backup.Chunking.Laws.{Called, join, call_lem}
use ch_backup.Chunking.Stream.{IsCut, fresh, fresh-IsReady, process_lem}

call_lem_example : Called (fresh 2 4) (1 ∷ 2 ∷ 3 ∷ []) (call (1 ∷ 2 ∷ 3 ∷ []) (fresh 2 4))
call_lem_example =
    call_lem (fresh 2 4) (1 ∷ 2 ∷ 3 ∷ []) (fresh-IsReady 2 4 (omega arith) (omega arith))

process_lem_example :
    (s : ChunkingStage) × (chunks : List (List ℕ)) × (new 2 4 ≡ ok s)
    × (process ((1 ∷ 2 ∷ 3 ∷ []) ∷ (4 ∷ 5 ∷ []) ∷ []) s ≡ some (ok chunks))
    × IsCut 2 (join ((1 ∷ 2 ∷ 3 ∷ []) ∷ (4 ∷ 5 ∷ []) ∷ [])) chunks
process_lem_example =
    process_lem 2 4 ((1 ∷ 2 ∷ 3 ∷ []) ∷ (4 ∷ 5 ∷ []) ∷ []) (omega arith) (omega arith)
