-- ===== src/RateLimiter/Tests.antt =====
-- A limit of four tokens a second, of ten ticks, and a few bytes.
use ch_backup.Prelude.{◌+◌, ◌-◌, ◌*◌, ◌≤◌, ◌≡◌, refl, [], ◌∷◌, ◌++◌, length, All, arith}
use ch_backup.Prelude.Int.{pos, ◌+ℤ◌, ◌-ℤ◌}
use ch_backup.RateLimiter.{RateLimiter, replenish_bucket, extract_tokens, call}
use ch_backup.RateLimiter.Bound.{call-bounds}
use ch_backup.RateLimiter.Stage.{call-whole}
use ch_backup.RateLimiter.Starved.{call-starved}
use ch_backup.Chunking.Laws.{join}

abbrev bucket : RateLimiter
bucket = record { limit_per_sec = 4; bucket_tokens = pos 1; bucket_last_update = 0 }

call-bounds_example :
    let (chunks, left, r') = call 10 (5 ∷ 10 ∷ []) (1 ∷ 2 ∷ 3 ∷ 4 ∷ 5 ∷ 6 ∷ []) bucket in
    All (λ c. length c ≤ 4) chunks × (length (join chunks) * 10 ≤ 1 * 10 + (10 - 0) * 4)
call-bounds_example =
    call-bounds 10 1 (5 ∷ 10 ∷ []) (1 ∷ 2 ∷ 3 ∷ 4 ∷ 5 ∷ 6 ∷ []) bucket (omega arith) refl
      (omega arith, (omega arith, tt))

five_bytes :
    (call 10 (5 ∷ 10 ∷ []) (1 ∷ 2 ∷ 3 ∷ 4 ∷ 5 ∷ 6 ∷ []) bucket).0
    ≡ (1 ∷ 2 ∷ 3 ∷ []) ∷ (4 ∷ 5 ∷ []) ∷ []
unfolding call extract_tokens replenish_bucket ◌+ℤ◌ ◌-ℤ◌
five_bytes = refl

-- A clock that goes back by a second: the stage passes on all bytes but the last three at once.
unlimited :
    (call 10
      (10 ∷ [])
      (1 ∷ 2 ∷ 3 ∷ 4 ∷ 5 ∷ 6 ∷ 7 ∷ 8 ∷ [])
      (record bucket { bucket_last_update = 20 })).0
    ≡ (1 ∷ 2 ∷ 3 ∷ 4 ∷ 5 ∷ []) ∷ []
unfolding call extract_tokens replenish_bucket ◌+ℤ◌ ◌-ℤ◌
unlimited = refl

call-whole_example :
    let (chunks, left, r') = call 10 (5 ∷ 10 ∷ []) (1 ∷ 2 ∷ 3 ∷ 4 ∷ []) bucket in
    join chunks ++ left ≡ 1 ∷ 2 ∷ 3 ∷ 4 ∷ []
call-whole_example = call-whole 10 (5 ∷ 10 ∷ []) (1 ∷ 2 ∷ 3 ∷ 4 ∷ []) bucket

call-starved_example :
    (call 10 (2 ∷ 4 ∷ 6 ∷ []) (1 ∷ 2 ∷ []) (record bucket { bucket_tokens = pos 0 })).1 ≡ 1 ∷ 2 ∷ []
call-starved_example =
    call-starved 10 (2 ∷ 4 ∷ 6 ∷ []) (1 ∷ 2 ∷ []) (record bucket { bucket_tokens = pos 0 })
      (omega arith) refl
      ((omega arith, omega arith), ((omega arith, omega arith), ((omega arith, omega arith), tt)))
