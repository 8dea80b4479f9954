-- ===== src/RateLimiter/Starved.antt =====
-- `RateLimiterStage.__call__` where it asks for tokens faster than they accrue.
use mathlib.Core.Path.{subst}
use native.Mathlib.Nat.{div-eq_of_lt}
use ch_backup.Prelude.{
  ℕ, ◌-◌, ◌*◌, ◌≤◌, ◌<◌, min, ◌≡◌, refl, sym, ap, ◌∙◌, arith, List, [], ◌∷◌, length,
}
use ch_backup.Prelude.Int.{ℤ, pos}
use ch_backup.RateLimiter.{RateLimiter, call}
use ch_backup.RateLimiter.Forward.{filled, bucket_at, call-forward}

-- No time is before the one before it, and between the two less than one token accrues.
abbrev pub AreClose : ℕ → ℕ → ℕ → List ℕ → Type 0
AreClose per_sec limit last [] = Unit
AreClose per_sec limit last (now ∷ times) =
    ((last ≤ now) × ((now - last) * limit < per_sec)) × AreClose per_sec limit now times

starved-empty :
    (per_sec limit last : ℕ) (times value : List ℕ)
    → 0 < limit
    → AreClose per_sec limit last times
    → (call per_sec times value (bucket_at limit 0 last)).1 ≡ value
unfolding call
starved-empty per_sec limit last [] [] limited close = refl
starved-empty per_sec limit last (now ∷ times) [] limited close = refl
starved-empty per_sec limit last [] (b ∷ bs) limited close = refl
starved-empty per_sec limit last (now ∷ times) (b ∷ bs) limited close =
    let nothing : filled per_sec limit 0 last now ≡ 0 = rw (div-eq_of_lt close.0.1) (omega arith) in
    let no_bytes : min (length (b ∷ bs)) 0 ≡ 0 = omega arith in
    ap (λ x. x.1) (call-forward per_sec limit 0 last now b times bs limited close.0.0)
    ∙ rw (nothing, no_bytes) (starved-empty per_sec limit now times (b ∷ bs) limited close.1)

-- With a positive limit, an empty bucket and calls that do not go back in time and are so close
-- that less than one token accrues between any two, the rate limiter stage never passes a byte on,
-- however long this goes on.
pub call-starved :
    (per_sec : ℕ) (times value : List ℕ) (r : RateLimiter)
    → 0 < r.limit_per_sec
    → r.bucket_tokens ≡ pos 0
    → AreClose per_sec r.limit_per_sec r.bucket_last_update times
    → (call per_sec times value r).1 ≡ value
call-starved per_sec times value r limited empty close =
    subst
      (λ (t : ℤ).
        (call per_sec times value (record {
          limit_per_sec = r.limit_per_sec;
          bucket_tokens = t;
          bucket_last_update = r.bucket_last_update;
        })).1
        ≡ value)
      (sym empty)
      (starved-empty per_sec r.limit_per_sec r.bucket_last_update times value limited close)
