-- ===== src/Prelude/Dicts.antt =====
-- Python's `dict` with string keys, as its items in insertion order, and `set` of strings, as the
-- list of its members.
use Prim.Native.Nat.{ℕ, ◌+◌}
use Prim.Native.String.{String}
use mathlib.Core.Path.{◌≡◌, refl, sym, ap, subst}
use mathlib.Core.Logic.{inl, inr}
use mathlib.Core.Bool.{Bool, true, false, ◌||◌}
use mathlib.Core.Option.{Option, none, some, some-injective}
use mathlib.Core.List.{List, [], ◌∷◌}
use native.Mathlib.Omega.{arith}
use text.Mathlib.Text.{◌==◌}
use text.Mathlib.TextEquality.{eq_iff}
use ch_backup.Prelude.Tests.{Bool-cases, if◌then◌else◌}

abbrev pub Dict {ℓ} : Type ℓ → Type ℓ
Dict V = List (String × V)

module _ {ℓ} {V : Type ℓ} where
  -- d.get(key)
  unfoldable pub lookup : String → Dict V → Option V
  lookup key [] = none
  lookup key ((first, v) ∷ rest) = if first == key then some v else lookup key rest

  -- d[key] = v: a key that is there keeps its place
  unfoldable pub insert : String → V → Dict V → Dict V
  insert key v [] = (key, v) ∷ []
  insert key v ((first, old) ∷ rest) =
      if first == key then (first, v) ∷ rest else (first, old) ∷ insert key v rest

  -- del d[k], of a key that is there
  unfoldable pub remove : String → Dict V → Dict V
  remove k [] = []
  remove k ((j, w) ∷ m) = if j == k then m else (j, w) ∷ remove k m

  unfoldable pub keys : Dict V → List String
  keys [] = []
  keys ((k, v) ∷ m) = k ∷ keys m

  -- {k: f(v) for k, v in d.items()}
  unfoldable pub map_values {κ} : {W : Type κ} → (V → W) → Dict V → Dict W
  map_values f [] = []
  map_values f ((k, v) ∷ m) = (k, f v) ∷ map_values f m

  abbrev pub map_option {κ} : {W : Type κ} → (V → W) → Option V → Option W
  map_option f none = none
  map_option f (some v) = some (f v)

  pub lookup-insert :
      (new key : String) (v : V) (d : Dict V)
      → lookup key (insert new v d) ≡ (if new == key then some v else lookup key d)
  unfolding lookup insert
  lookup-insert new key v [] = refl
  lookup-insert new key v ((first, old) ∷ rest) =
      let further = lookup-insert new key v rest in
      ground (arith, eq_iff new key, eq_iff first new, eq_iff first key, further)

  pub lookup-remove_ne :
      (k j : String) (m : Dict V) → (k == j) ≡ false → lookup j (remove k m) ≡ lookup j m
  unfolding lookup remove
  lookup-remove_ne k j [] h = refl
  lookup-remove_ne k j ((i, w) ∷ m) h =
      ground (arith, eq_iff k j, eq_iff i k, eq_iff i j, lookup-remove_ne k j m h)

module _ {ℓ κ} {V : Type ℓ} {W : Type κ} (f : V → W) where
  pub lookup-map_values :
      (k : String) (m : Dict V) → lookup k (map_values f m) ≡ map_option f (lookup k m)
  unfolding lookup map_values
  lookup-map_values k [] = refl
  lookup-map_values k ((j, v) ∷ m) = elim (Bool-cases (j == k)) [
    | inl same ↦ rw same
    | inr other ↦ rw other (lookup-map_values k m)
  ]

-- A sum over the values of a dictionary.
module _ {ℓ} {V : Type ℓ} (weight : V → ℕ) where
  unfoldable pub total : Dict V → ℕ
  total [] = 0
  total ((k, v) ∷ m) = weight v + total m

  abbrev pub weight_at : Option V → ℕ
  weight_at none = 0
  weight_at (some v) = weight v

  pub total-insert :
      (k : String) (v : V) (m : Dict V)
      → total (insert k v m) + weight_at (lookup k m) ≡ total m + weight v
  unfolding total insert lookup
  total-insert k v [] = omega arith
  total-insert k v ((j, w) ∷ m) = elim (Bool-cases (j == k)) [
    | inl same ↦ rw same (omega arith)
    | inr other ↦ rw other (omega (arith, total-insert k v m))
  ]

  pub total-remove :
      (k : String) (m : Dict V) → total (remove k m) + weight_at (lookup k m) ≡ total m
  unfolding total remove lookup
  total-remove k [] = omega arith
  total-remove k ((j, w) ∷ m) = elim (Bool-cases (j == k)) [
    | inl same ↦ rw same (omega arith)
    | inr other ↦ rw other (omega (arith, total-remove k m))
  ]

-- x in xs
abbrev pub contains : String → List String → Bool
contains x [] = false
contains x (y ∷ ys) = y == x || contains x ys

-- s.add(x)
unfoldable pub set_add : String → List String → List String
set_add x s = if contains x s then s else x ∷ s

contains_known :
    (x y : String) (s : List String) → contains x s ≡ true → contains y s ≡ (x == y || contains y s)
contains_known x y s h = ground (arith, eq_iff x y, ap (λ z. contains z s) {x = x} {y = y})

pub contains-set_add :
    (x y : String) (s : List String) → contains y (set_add x s) ≡ (x == y || contains y s)
unfolding set_add
contains-set_add x y s = elim (Bool-cases (contains x s)) [
  | inl there ↦ rw there (contains_known x y s there)
  | inr new ↦ rw new
]

-- Every item of a dictionary, also one that an earlier key hides.
abbrev pub AllItems {ℓ} : {V : Type ℓ} → (String → V → Type 0) → Dict V → Type 0
AllItems Q [] = Unit
AllItems Q ((k, v) ∷ m) = Q k v × AllItems Q m

abbrev pub AllValues {ℓ} : {V : Type ℓ} → (V → Type 0) → Dict V → Type 0
AllValues Q = AllItems (λ _ v. Q v)

module _ {ℓ} {V : Type ℓ} (Q : String → V → Type 0) where
  pub AllItems-lookup :
      (k : String) (v : V) (m : Dict V) → AllItems Q m → lookup k m ≡ some v → Q k v
  unfolding lookup
  AllItems-lookup k v [] a h = cc
  AllItems-lookup k v ((j, w) ∷ m) a h = elim (Bool-cases (j == k)) [
    | inl same ↦
        subst (λ i. Q i v) ((eq_iff j k).0 same)
          (subst (Q j) (some-injective w v (rw same at h)) a.0)
    | inr other ↦ AllItems-lookup k v m a.1 (rw other at h)
  ]

  pub AllItems-insert :
      (k : String) (v : V) (m : Dict V) → AllItems Q m → Q k v → AllItems Q (insert k v m)
  unfolding insert
  AllItems-insert k v [] a q = (q, tt)
  AllItems-insert k v ((j, w) ∷ m) a q = elim (Bool-cases (j == k)) [
    | inl same ↦ rw (same, insert) (subst (λ i. Q i v) (sym ((eq_iff j k).0 same)) q, a.1)
    | inr other ↦ rw (other, insert) (a.0, AllItems-insert k v m a.1 q)
  ]

  pub AllItems-remove : (k : String) (m : Dict V) → AllItems Q m → AllItems Q (remove k m)
  unfolding remove
  AllItems-remove k [] a = tt
  AllItems-remove k ((j, w) ∷ m) a = elim (Bool-cases (j == k)) [
    | inl same ↦ rw (same, remove) a.1
    | inr other ↦ rw (other, remove) (a.0, AllItems-remove k m a.1)
  ]

-- A test of what a key finds.
pub contains-keys {ℓ} :
    {V : Type ℓ} (k : String) (m : Dict V)
    → contains k (keys m) ≡ (elim (lookup k m) [ none ↦ false | some v ↦ true ])
unfolding lookup keys
contains-keys k [] = refl
contains-keys k ((j, v) ∷ m) = ground (arith, contains-keys k m)
