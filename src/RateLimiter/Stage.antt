-- ===== src/RateLimiter/Stage.antt =====
-- `RateLimiterStage.__call__`: the bytes that it yields.
use ch_backup.Prelude.{
  ℕ, ◌≡◌, refl, ap, ◌∙◌, List, [], ◌∷◌, ◌++◌, length, take, drop, append_assoc, take-append-drop,
}
use ch_backup.Prelude.Int.{pos}
use ch_backup.RateLimiter.{RateLimiter, min_ℤ, slice_at, extract_tokens, call}
use ch_backup.Chunking.Laws.{join}

-- What the rate limiter stage has yielded, followed by what is left, is the value.
pub call-whole :
    (per_sec : ℕ) (times value : List ℕ) (r : RateLimiter)
    → let (chunks, left, r') = call per_sec times value r in join chunks ++ left ≡ value
unfolding call join
call-whole per_sec [] [] r = refl
call-whole per_sec (now ∷ times) [] r = refl
call-whole per_sec [] (b ∷ bs) r = refl
call-whole per_sec (now ∷ times) (b ∷ bs) r =
    let (n, r') = extract_tokens per_sec now (length (b ∷ bs)) r in
    let k = slice_at (min_ℤ n (pos (length (b ∷ bs)))) (length (b ∷ bs)) in
    append_assoc (take k (b ∷ bs)) _ _
    ∙ ap (λ x. take k (b ∷ bs) ++ x) (call-whole per_sec times (drop k (b ∷ bs)) r')
    ∙ take-append-drop k (b ∷ bs)
