-- ===== src/RateLimiter/Bound.antt =====
-- How much the stage of the rate limiter passes on over a time.
use mathlib.Core.Path.{subst}
use native.Mathlib.Nat.{div-mul-le_self, mul-le-mul_right, add-mul}
use ch_backup.Prelude.{
  ℕ, ◌+◌, ◌-◌, ◌*◌, ◌/◌, ◌≤◌, ◌<◌, min, ◌≡◌, sym, ap, ◌∙◌, arith, List, [], ◌∷◌, length, take, drop,
  length-take, length-append, All,
}
use ch_backup.Prelude.Int.{ℤ, pos}
use ch_backup.Chunking.Laws.{join}
use ch_backup.RateLimiter.{RateLimiter, call}
use ch_backup.RateLimiter.Forward.{filled, bucket_at, call-forward}

-- No time is before the one before it.
abbrev pub AreForward : ℕ → List ℕ → Type 0
AreForward last [] = Unit
AreForward last (now ∷ times) = (last ≤ now) × AreForward now times

abbrev pub last_of : ℕ → List ℕ → ℕ
last_of last [] = last
last_of last (now ∷ times) = last_of now times

last_of-forward : (last : ℕ) (times : List ℕ) → AreForward last times → last ≤ last_of last times
last_of-forward last [] forward = omega arith
last_of-forward last (now ∷ times) forward =
    omega (arith, forward.0, last_of-forward now times forward.1)

-- What is in the bucket has accrued.
filled-accrued :
    (per_sec limit tokens last now : ℕ)
    → filled per_sec limit tokens last now * per_sec ≤ tokens * per_sec + (now - last) * limit
filled-accrued per_sec limit tokens last now =
    let gained = (now - last) * limit / per_sec in
    omega (
      arith,
      mul-le-mul_right per_sec (at_most limit (tokens + gained)),
      add-mul tokens gained per_sec,
      div-mul-le_self ((now - last) * limit) per_sec,
    )
  where
    at_most : (a b : ℕ) → min a b ≤ b
    at_most a b = omega arith

abbrev IsBounded : ℕ → ℕ → ℕ → ℕ → ℕ → List (List ℕ) × List ℕ × RateLimiter → Type 0
IsBounded per_sec limit tokens last end (chunks, left, r) =
    All (λ c. length c ≤ limit) chunks
    × (length (join chunks) * per_sec ≤ tokens * per_sec + (end - last) * limit)

-- A round that takes `n` of the tokens, and the rounds after it.
IsBounded-round :
    (per_sec limit tokens last now end n b : ℕ) (bs : List ℕ)
    (rest : List (List ℕ) × List ℕ × RateLimiter)
    → let full = filled per_sec limit tokens last now in
      last ≤ now
      → now ≤ end
      → n ≤ full
      → IsBounded per_sec limit (full - n) now end rest
      → IsBounded per_sec limit tokens last end (take n (b ∷ bs) ∷ rest.0, rest.1, rest.2)
unfolding join
IsBounded-round per_sec limit tokens last now end n b bs (chunks, left, r) forward later enough
      (short, total) =
    let full = filled per_sec limit tokens last now in
    let taken = take n (b ∷ bs) in
    let passed : length taken ≤ n = omega (arith, length-take n (b ∷ bs)) in
    (
      (omega (arith, passed), short),
      omega (
        arith,
        ap (λ (x : ℕ). x * per_sec) (length-append taken (join chunks)),
        add-mul (length taken) (length (join chunks)) per_sec,
        mul-le-mul_right per_sec passed,
        total,
        split_mul full n per_sec enough,
        filled-accrued per_sec limit tokens last now,
        split_mul (end - last) (now - last) limit (omega arith),
        ap (λ (x : ℕ). x * limit) (parts forward later),
      ),
    )
  where
    whole : (a b : ℕ) → b ≤ a → b + (a - b) ≡ a
    whole a b h = omega (arith, h)

    split_mul : (a b k : ℕ) → b ≤ a → b * k + (a - b) * k ≡ a * k
    split_mul a b k h = sym (add-mul b (a - b) k) ∙ ap (λ (x : ℕ). x * k) (whole a b h)

    parts : last ≤ now → now ≤ end → (end - last) - (now - last) ≡ end - now
    parts f l = omega (arith, f, l)

bounded :
    (per_sec limit tokens last : ℕ) (times value : List ℕ)
    → 0 < limit
    → AreForward last times
    → IsBounded per_sec limit tokens last
        (last_of last times)
        (call per_sec times value (bucket_at limit tokens last))
unfolding call join
bounded per_sec limit tokens last [] [] limited forward = (tt, omega arith)
bounded per_sec limit tokens last (now ∷ times) [] limited forward = (tt, omega arith)
bounded per_sec limit tokens last [] (b ∷ bs) limited forward = (tt, omega arith)
bounded per_sec limit tokens last (now ∷ times) (b ∷ bs) limited forward =
    let full = filled per_sec limit tokens last now in
    let n = min (length (b ∷ bs)) full in
    subst (IsBounded per_sec limit tokens last (last_of now times))
      (sym (call-forward per_sec limit tokens last now b times bs limited forward.0))
      (IsBounded-round per_sec limit tokens last now (last_of now times) n b bs
        (call per_sec times (drop n (b ∷ bs)) (bucket_at limit (full - n) now)) forward.0
        (last_of-forward now times forward.1) (omega arith)
        (bounded per_sec limit (full - n) now times (drop n (b ∷ bs)) limited forward.1))

-- With a positive limit, no negative number of tokens and times that do not go back, the rate
-- limiter stage passes on no more bytes at a time than the limit of a second, and over all the
-- times no more than the bucket held and the time since its last update brings at the limit.
pub call-bounds :
    (per_sec tokens : ℕ) (times value : List ℕ) (r : RateLimiter)
    → 0 < r.limit_per_sec
    → r.bucket_tokens ≡ pos tokens
    → AreForward r.bucket_last_update times
    → let (chunks, left, r') = call per_sec times value r in
      All (λ c. length c ≤ r.limit_per_sec) chunks
      × (length (join chunks) * per_sec
          ≤ tokens * per_sec
            + (last_of r.bucket_last_update times - r.bucket_last_update) * r.limit_per_sec)
call-bounds per_sec tokens times value r limited filled_with forward =
    let limit = r.limit_per_sec in
    let last = r.bucket_last_update in
    subst
      (λ (t : ℤ). IsBounded per_sec limit tokens last (last_of last times) (
        call per_sec times value
          (record { limit_per_sec = limit; bucket_tokens = t; bucket_last_update = last })))
      (sym filled_with) (bounded per_sec limit tokens last times value limited forward)
