-- ===== src/RateLimiter.antt =====
-- ch_backup/storage/async_pipeline/base_pipeline/rate_limiter.py and the stage on it,
-- .../stages/storage/rate_limiter_stage.py. Time is counted in ticks, `per_sec` of them a second, and
-- each call is given the time that `get_time_func` returns, which may be before that of the last
-- call. Tokens are integers, since such a call takes tokens away.
pub mod Forward
pub mod Bound
pub mod Stage
pub mod Starved
mod Tests
use ch_backup.Prelude.{
  ℕ, zero, suc, ◌-◌, ◌*◌, ◌/◌, Bool, true, false, List, [], ◌∷◌, length, take, drop, eqb,
  if◌then◌else◌,
}
use ch_backup.Prelude.Int.{ℤ, pos, negsuc, sub_ℕ, ◌+ℤ◌, ◌-ℤ◌, ltb_ℤ}

pub record RateLimiter : Type 0 where
  pub limit_per_sec : ℕ
  pub bucket_tokens : ℤ
  pub bucket_last_update : ℕ

pub new : ℕ → ℕ → RateLimiter
new limit_per_sec now = record {
  limit_per_sec = limit_per_sec;
  bucket_tokens = pos limit_per_sec;
  bucket_last_update = now;
}

abbrev pub min_ℤ : ℤ → ℤ → ℤ
min_ℤ a b = if ltb_ℤ b a then b else a

-- `value[:i]` ends there, and `value[i:]` starts there: from the end for a negative index
abbrev pub slice_at : ℤ → ℕ → ℕ
slice_at (pos n) size = n
slice_at (negsuc n) size = size - suc n

module _ (per_sec : ℕ) where
  -- `int(lapse * limit_per_sec)`; `int` cuts the fraction off, on both sides of zero
  abbrev pub accrued : ℤ → ℕ → ℤ
  accrued (pos ticks) limit = pos (ticks * limit / per_sec)
  accrued (negsuc ticks) limit = sub_ℕ 0 (suc ticks * limit / per_sec)

  -- `_replenish_bucket`
  pub replenish_bucket : ℕ → RateLimiter → RateLimiter
  unfolding ◌+ℤ◌
  replenish_bucket now r =
      let lapse = sub_ℕ now r.bucket_last_update in
      record r {
        bucket_tokens =
            min_ℤ (pos r.limit_per_sec) (r.bucket_tokens +ℤ accrued lapse r.limit_per_sec);
        bucket_last_update = now;
      }

  pub extract_tokens : ℕ → ℕ → RateLimiter → ℤ × RateLimiter
  unfolding replenish_bucket ◌-ℤ◌
  extract_tokens now desired_quantity r =
      if eqb r.limit_per_sec 0
      then (pos desired_quantity, r)
      else (let full = replenish_bucket now r in
          let extracted = min_ℤ (pos desired_quantity) full.bucket_tokens in
          (extracted, record full { bucket_tokens = full.bucket_tokens -ℤ extracted }))

  pub grant : ℕ → ℕ → RateLimiter → Bool × RateLimiter
  unfolding replenish_bucket ◌-ℤ◌
  grant now tokens r =
      if eqb r.limit_per_sec 0
      then (true, r)
      else (let full = replenish_bucket now r in
          if ltb_ℤ full.bucket_tokens (pos tokens)
          then (false, full)
          else (true, record full { bucket_tokens = full.bucket_tokens -ℤ pos tokens }))

  -- `RateLimiterStage.__call__`: what it yields, given the times at which its loop asks for tokens,
  -- with the value that is left when these run out.
  pub call : List ℕ → List ℕ → RateLimiter → List (List ℕ) × List ℕ × RateLimiter
  unfolding extract_tokens
  call times [] r = ([], [], r)
  call [] (b ∷ bs) r = ([], b ∷ bs, r)
  call (now ∷ times) (b ∷ bs) r =
      let (available_tokens, r') = extract_tokens now (length (b ∷ bs)) r in
      let pass_bytes = min_ℤ available_tokens (pos (length (b ∷ bs))) in
      let cut = slice_at pass_bytes (length (b ∷ bs)) in
      let (chunks, left, r'') = call times (drop cut (b ∷ bs)) r' in
      (take cut (b ∷ bs) ∷ chunks, left, r'')
