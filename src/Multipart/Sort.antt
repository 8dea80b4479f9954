-- ===== src/Multipart/Sort.antt =====
-- The parts of an upload in the order of their numbers.
use mathlib.Core.Path.{subst}
use mathlib.Core.List.{Permᴰ}
use ch_backup.Prelude.{
  ℕ, suc, ◌+◌, ◌<◌, ◌≡◌, refl, ap, ap₂, ◌∙◌, eqb, false, List, [], ◌∷◌, length, All, arith,
}
use ch_backup.Multipart.{UploadingPart, put_part, sort_parts, number_from}

module _ {A : Type 0} (number : A → ℕ) where
  abbrev pub IsFresh : A → List A → Type 0
  IsFresh x = All (λ y. eqb (number x) (number y) ≡ false)

  -- No two of a list have one number.
  abbrev pub AreDistinct : List A → Type 0
  AreDistinct [] = Unit
  AreDistinct (x ∷ xs) = IsFresh x xs × AreDistinct xs

  put_part-swap :
      (x y : A) (zs : List A)
      → eqb (number x) (number y) ≡ false
      → put_part number x (put_part number y zs) ≡ put_part number y (put_part number x zs)
  unfolding put_part
  put_part-swap x y [] h = ground arith
  put_part-swap x y (z ∷ zs) h = ground (arith, put_part-swap x y zs h)

  pub Perm-All : (P : A → Type 0) {xs ys : List A} → Permᴰ xs ys → All P xs → All P ys
  Perm-All P Permᴰ.nil all = tt
  Perm-All P (Permᴰ.cons e p) all = (subst P e all.0, Perm-All P p all.1)
  Perm-All P (Permᴰ.swap e f) all = (subst P f all.1.0, (subst P e all.0, all.1.1))
  Perm-All P (Permᴰ.trans p q) all = Perm-All P q (Perm-All P p all)

  pub Perm-AreDistinct : {xs ys : List A} → Permᴰ xs ys → AreDistinct xs → AreDistinct ys
  Perm-AreDistinct Permᴰ.nil d = tt
  Perm-AreDistinct (Permᴰ.cons {a} {b} {l₁} {l₂} e p) d = (
    subst (λ x. IsFresh x l₂) e (Perm-All (λ y. eqb (number a) (number y) ≡ false) p d.0),
    Perm-AreDistinct p d.1,
  )
  Perm-AreDistinct (Permᴰ.swap {a} {b} {a'} {b'} {l} e f) d =
      subst (λ x. AreDistinct (x ∷ b' ∷ l)) f
        (subst (λ y. AreDistinct (b ∷ y ∷ l)) e ((ground (arith, d.0.0), d.1.0), (d.0.1, d.1.1)))
  Perm-AreDistinct (Permᴰ.trans p q) d = Perm-AreDistinct q (Perm-AreDistinct p d)

  pub length-Perm : {xs ys : List A} → Permᴰ xs ys → length xs ≡ length ys
  length-Perm Permᴰ.nil = refl
  length-Perm (Permᴰ.cons e p) = ap suc (length-Perm p)
  length-Perm (Permᴰ.swap e f) = refl
  length-Perm (Permᴰ.trans p q) = length-Perm p ∙ length-Perm q

  pub sort_parts-Perm :
      {xs ys : List A} → Permᴰ xs ys → AreDistinct xs → sort_parts number xs ≡ sort_parts number ys
  unfolding sort_parts
  sort_parts-Perm Permᴰ.nil d = refl
  sort_parts-Perm (Permᴰ.cons e p) d = ap₂ (put_part number) e (sort_parts-Perm p d.1)
  sort_parts-Perm (Permᴰ.swap {a} {b} {a'} {b'} {l} e f) d =
      put_part-swap a b (sort_parts number l) d.0.0
      ∙ ap₂ (λ x y. put_part number x (put_part number y (sort_parts number l))) f e
  sort_parts-Perm (Permᴰ.trans p q) d =
      sort_parts-Perm p d ∙ sort_parts-Perm q (Perm-AreDistinct p d)

-- Parts that are numbered in their order stay in it.
number_from-IsFresh :
    (k n : ℕ) (parts : List UploadingPart)
    → n < k + 1
    → All (λ p. eqb n p.0 ≡ false) (number_from k parts)
unfolding number_from
number_from-IsFresh k n [] h = tt
number_from-IsFresh k n (part ∷ parts) h =
    (ground (arith, h), number_from-IsFresh (k + 1) n parts (omega arith))

pub number_from-AreDistinct :
    (k : ℕ) (parts : List UploadingPart) → AreDistinct (λ p. p.0) (number_from k parts)
unfolding number_from
number_from-AreDistinct k [] = tt
number_from-AreDistinct k (part ∷ parts) =
    (number_from-IsFresh (k + 1) (k + 1) parts (omega arith), number_from-AreDistinct (k + 1) parts)

pub sort_parts-number_from :
    (k : ℕ) (parts : List UploadingPart)
    → sort_parts (λ p. p.0) (number_from k parts) ≡ number_from k parts
unfolding sort_parts number_from put_part
sort_parts-number_from k [] = refl
sort_parts-number_from k (part ∷ parts) =
    rw (sort_parts, sort_parts-number_from (k + 1) parts) (first parts)
  where
    first :
        (parts : List UploadingPart)
        → put_part (λ p. p.0) (k + 1, part) (number_from (k + 1) parts)
          ≡ (k + 1, part) ∷ number_from (k + 1) parts
    first [] = refl
    first (p ∷ ps) = ground arith
