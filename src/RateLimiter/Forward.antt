-- ===== src/RateLimiter/Forward.antt =====
-- The rate limiter and its stage on a clock that does not go back.
use ch_backup.Prelude.{
  ℕ, ◌+◌, ◌-◌, ◌*◌, ◌/◌, ◌≤◌, ◌<◌, min, ◌≡◌, refl, false, eqb, arith, List, ◌∷◌, length, take, drop,
}
use ch_backup.Prelude.Int.{pos, sub_ℕ, ◌-ℤ◌, pos-+ℤ}
use ch_backup.RateLimiter.{RateLimiter, min_ℤ, replenish_bucket, extract_tokens, call}

min_ℤ-pos : (a b : ℕ) → min_ℤ (pos a) (pos b) ≡ pos (min a b)
min_ℤ-pos a b = ground arith

sub_ℕ-forward : (a b : ℕ) → b ≤ a → sub_ℕ a b ≡ pos (a - b)
sub_ℕ-forward a b h = ground (arith, h)

rest-pos : (a b : ℕ) → b ≤ a → pos a -ℤ pos b ≡ pos (a - b)
unfolding ◌-ℤ◌
rest-pos a b h = ground (arith, h)

-- What the bucket holds at a time, from what it held at the last one.
abbrev pub filled : ℕ → ℕ → ℕ → ℕ → ℕ → ℕ
filled per_sec limit tokens last now = min limit (tokens + (now - last) * limit / per_sec)

pub extract_forward :
    (per_sec limit tokens last now desired : ℕ)
    → 0 < limit
    → last ≤ now
    → extract_tokens per_sec now desired
        (record { limit_per_sec = limit; bucket_tokens = pos tokens; bucket_last_update = last })
      ≡ (
        pos (min desired (filled per_sec limit tokens last now)),
        record {
          limit_per_sec = limit;
          bucket_tokens = pos (
              filled per_sec limit tokens last now
              - min desired (filled per_sec limit tokens last now));
          bucket_last_update = now;
        },
      )
unfolding extract_tokens replenish_bucket
extract_forward per_sec limit tokens last now desired limited forward =
    let full = filled per_sec limit tokens last now in
    let limit_set : eqb limit 0 ≡ false = ground (arith, limited) in
    let rest : min desired full ≤ full = omega arith in
    rw
      (
        limit_set,
        sub_ℕ-forward now last forward,
        pos-+ℤ tokens ((now - last) * limit / per_sec),
        min_ℤ-pos limit (tokens + (now - last) * limit / per_sec),
        min_ℤ-pos desired full,
        rest-pos full (min desired full) rest,
      )
      refl

-- A limiter with a limit, its tokens and the time of its last update.
abbrev pub bucket_at : ℕ → ℕ → ℕ → RateLimiter
bucket_at limit tokens last = record {
  limit_per_sec = limit;
  bucket_tokens = pos tokens;
  bucket_last_update = last;
}

-- A round of the stage passes on as many bytes as there are tokens.
pub call-forward :
    (per_sec limit tokens last now b : ℕ) (times bs : List ℕ)
    → 0 < limit
    → last ≤ now
    → let full = filled per_sec limit tokens last now in
      let n = min (length (b ∷ bs)) full in
      let (chunks, left, r) =
        call per_sec times (drop n (b ∷ bs)) (bucket_at limit (full - n) now) in
      call per_sec (now ∷ times) (b ∷ bs) (bucket_at limit tokens last)
      ≡ (take n (b ∷ bs) ∷ chunks, left, r)
unfolding call
call-forward per_sec limit tokens last now b times bs limited forward =
    let size = length (b ∷ bs) in
    let n = min size (filled per_sec limit tokens last now) in
    let fits : min n size ≡ n = omega arith in
    rw
      (
        extract_forward per_sec limit tokens last now size limited forward,
        call,
        min_ℤ-pos n size,
        fits,
      )
      refl
