-- ===== src/Prelude/Segments.antt =====
-- Segments of a list, and what a write in place does to them.
use ch_backup.Prelude.Lists.{
  length, take, drop, take-append_left, drop-append_left, length-take, length-drop, length-append,
  take_all,
}
use Prim.Native.Nat.{ℕ, zero, suc, ◌+◌, ◌-◌, ◌≤◌, min, max}
use mathlib.Core.Path.{◌≡◌, refl, ap}
use mathlib.Core.List.{List, [], ◌∷◌, ◌++◌}
use native.Mathlib.Nat.{zero-add, suc-add, sub-zero, zero-sub, suc-sub-suc, min-zero, suc-min-suc}
use native.Mathlib.Omega.{arith}

module _ {ℓ} {A : Type ℓ} where
  -- the `n` elements from index `a` on
  abbrev pub segment : ℕ → ℕ → List A → List A
  segment a n xs = take n (drop a xs)

  -- `xs` with `d` in place of the elements from index `p` on
  abbrev pub splice : List A → ℕ → List A → List A
  splice xs p d = take p xs ++ (d ++ drop (p + length d) xs)

  pub take-take : (n m : ℕ) (xs : List A) → n ≤ m → take n (take m xs) ≡ take n xs
  take-take zero m xs h = refl
  take-take (suc n) zero xs h = absurd (omega arith)
  take-take (suc n) (suc m) [] h = refl
  take-take (suc n) (suc m) (x ∷ xs) h = ap (λ ys. x ∷ ys) (take-take n m xs (omega arith))

  pub take-nil : (n : ℕ) → take {A = A} n [] ≡ []
  take-nil zero = refl
  take-nil (suc n) = refl

  pub drop-nil : (n : ℕ) → drop {A = A} n [] ≡ []
  drop-nil zero = refl
  drop-nil (suc n) = refl

  pub drop-take : (a m : ℕ) (xs : List A) → drop a (take m xs) ≡ take (m - a) (drop a xs)
  drop-take zero m xs = rw sub-zero
  drop-take (suc a) zero xs = rw zero-sub
  drop-take (suc a) (suc m) [] = rw take-nil
  drop-take (suc a) (suc m) (x ∷ xs) = rw suc-sub-suc (drop-take a m xs)

  pub drop-drop : (a b : ℕ) (xs : List A) → drop b (drop a xs) ≡ drop (a + b) xs
  drop-drop zero b xs = rw zero-add
  drop-drop (suc a) b [] = rw (drop-nil, drop-nil)
  drop-drop (suc a) b (x ∷ xs) = rw suc-add (drop-drop a b xs)

  pub drop-append_right :
      (a : ℕ) (xs ys : List A) → length xs ≤ a → drop a (xs ++ ys) ≡ drop (a - length xs) ys
  drop-append_right a [] ys h = rw sub-zero
  drop-append_right zero (x ∷ xs) ys h = absurd (omega arith)
  drop-append_right (suc a) (x ∷ xs) ys h = rw suc-sub-suc (drop-append_right a xs ys (omega arith))

  pub take-append_right :
      (m : ℕ) (xs ys : List A) → take (length xs + m) (xs ++ ys) ≡ xs ++ take m ys
  take-append_right m [] ys = rw zero-add
  take-append_right m (x ∷ xs) ys = rw (suc-add, take-append_right m xs ys)

  pub take-add : (a b : ℕ) (xs : List A) → take (a + b) xs ≡ take a xs ++ segment a b xs
  take-add zero b xs = rw zero-add
  take-add (suc a) b [] = rw (take-nil, take-nil)
  take-add (suc a) b (x ∷ xs) = rw (suc-add, take-add a b xs)

  -- A segment splits where one likes.
  pub segment-add :
      (a n m : ℕ) (xs : List A) → segment a (n + m) xs ≡ segment a n xs ++ segment (a + n) m xs
  segment-add a n m xs = rw (take-add n m (drop a xs), drop-drop a n xs)

  pub length-segment : (a n : ℕ) (xs : List A) → a + n ≤ length xs → length (segment a n xs) ≡ n
  length-segment a n xs h = omega (arith, length-take n (drop a xs), length-drop a xs)

  pub length-splice :
      (xs : List A) (p : ℕ) (d : List A)
      → p ≤ length xs
      → length (splice xs p d) ≡ max (length xs) (p + length d)
  length-splice xs p d h = omega (
    arith,
    length-append (take p xs) (d ++ drop (p + length d) xs),
    length-append d (drop (p + length d) xs),
    length-take p xs,
    length-drop (p + length d) xs,
  )

  -- What stands before the written place stays.
  pub segment-splice_before :
      (a n p : ℕ) (xs d : List A)
      → a + n ≤ p
      → p ≤ length xs
      → segment a n (splice xs p d) ≡ segment a n xs
  segment-splice_before a n p xs d h k = rw (
    drop-append_left a (take p xs) (d ++ drop (p + length d) xs) (omega (arith, length-take p xs)),
    take-append_left n (drop a (take p xs)) (d ++ drop (p + length d) xs)
        (omega (arith, length-take p xs, length-drop a (take p xs))),
    drop-take a p xs,
    take-take n (p - a) (drop a xs) (omega arith),
  )

  -- What stands behind the written place stays.
  pub segment-splice_after :
      (a n p : ℕ) (xs d : List A)
      → p + length d ≤ a
      → p ≤ length xs
      → segment a n (splice xs p d) ≡ segment a n xs
  segment-splice_after a n p xs d h k = ap (λ ys. take n ys) behind
    where
      cut : length (take p xs) ≡ p
      cut = omega (arith, length-take p xs)

      at : p + length d + (a - p - length d) ≡ a
      at = omega arith

      behind : drop a (splice xs p d) ≡ drop a xs
      behind = rw (
        drop-append_right a (take p xs) (d ++ drop (p + length d) xs) (omega (arith, cut)),
        cut,
        drop-append_right (a - p) d (drop (p + length d) xs) (omega arith),
        drop-drop (p + length d) (a - p - length d) xs,
        at,
      )

  -- The written data is there.
  pub segment-splice_self :
      (p : ℕ) (xs d : List A) → p ≤ length xs → segment p (length d) (splice xs p d) ≡ d
  segment-splice_self p xs d h = rw (
    drop-append_right p (take p xs) (d ++ drop (p + length d) xs) (omega (arith, cut)),
    cut,
    none_left,
    take-append_left (length d) d (drop (p + length d) xs) (omega arith),
    take_all (length d) d (omega arith),
  )
    where
      cut : length (take p xs) ≡ p
      cut = omega (arith, length-take p xs)

      none_left : p - p ≡ 0
      none_left = omega arith

  -- Taking more than there is is taking all.
  pub take-min : (xs : List A) (n : ℕ) → take (min (length xs) n) xs ≡ take n xs
  take-min [] n = rw (take-nil, take-nil)
  take-min (x ∷ xs) zero = rw min-zero
  take-min (x ∷ xs) (suc n) = rw (suc-min-suc, take-min xs n)

  -- A list that is made of two parts falls apart at the first one's length.
  pub take-append_self : (xs ys : List A) → take (length xs) (xs ++ ys) ≡ xs
  take-append_self [] ys = refl
  take-append_self (x ∷ xs) ys = ap (λ zs. x ∷ zs) (take-append_self xs ys)

  pub drop-append_self : (xs ys : List A) → drop (length xs) (xs ++ ys) ≡ ys
  drop-append_self [] ys = refl
  drop-append_self (x ∷ xs) ys = drop-append_self xs ys

  pub split_at :
      (n : ℕ) (xs front back : List A)
      → xs ≡ front ++ back
      → length front ≡ n
      → (front ≡ take n xs) × (back ≡ drop n xs)
  split_at n xs front back e h =
      (cc (take-append_self front back), cc (drop-append_self front back))

  pub drop-min : (xs : List A) (n : ℕ) → drop (min (length xs) n) xs ≡ drop n xs
  drop-min [] n = rw (drop-nil, drop-nil)
  drop-min (x ∷ xs) zero = rw min-zero
  drop-min (x ∷ xs) (suc n) = rw suc-min-suc (drop-min xs n)
