-- ===== src/Lifecycle/Exec.antt =====
-- Methods that act on objects and may raise. What was done before a raise stays done, so the state
-- comes back beside the error too.
use ch_backup.Prelude.{◌≡◌, Result, ok, err, Error}

abbrev pub Exec {ℓ} : Type ℓ → Type 0 → Type ℓ
Exec S A = S → Result A × S

module _ {ℓ} {S : Type ℓ} {A B : Type 0} where
  abbrev pub carry_on : Result A → (A → Exec S B) → Exec S B
  carry_on (ok a) f s = f a s
  carry_on (err e) f s = (err e, s)

  infixl 5 ◌>>=◌ ◌>>◌
  abbrev pub ◌>>=◌ : Exec S A → (A → Exec S B) → Exec S B
  ◌>>=◌ m f s = let (r, s') = m s in carry_on r f s'

  abbrev pub ◌>>◌ : Exec S A → Exec S B → Exec S B
  m >> n = m >>= λ _. n

module _ {ℓ} {S : Type ℓ} {A : Type 0} where
  abbrev pub pure : A → Exec S A
  pure a s = (ok a, s)

  abbrev pub raise : Error → Exec S A
  raise e s = (err e, s)

  abbrev pub lift : Result A → Exec S A
  lift r s = (r, s)

-- Whatever `act` does to a state with `P` leaves one with `P`, whether it returns or raises.
pub record Keeps {ℓ} {S : Type ℓ} {A : Type 0} (P : S → Type ℓ) (act : Exec S A) : Type ℓ where
  pub at : (before : S) → P before → P (act before).1

module _ {ℓ} {S : Type ℓ} {X Y : Type 0} {P : S → Type ℓ} where
  pub Keeps-carry_on :
      (done : Result X) (next : X → Exec S Y)
      → ((x : X) → done ≡ ok x → Keeps P (next x))
      → (now : S) → P now
      → P (carry_on done next now).1
  Keeps-carry_on (err e) next k now p = p
  Keeps-carry_on (ok x) next k now p = (k x (λ i. ok x)).at now p

  pub Keeps-bind :
      (act : Exec S X) (next : X → Exec S Y)
      → Keeps P act
      → ((x : X) → Keeps P (next x))
      → Keeps P (act >>= next)
  Keeps-bind act next first k = record {
    at = λ now p.
        let (done, after) = act now in Keeps-carry_on done next (λ x _. k x) after (first.at now p);
  }

  -- A pure part passes on what it returned.
  pub Keeps-bind-lift :
      (done : Result X) (next : X → Exec S Y)
      → ((x : X) → done ≡ ok x → Keeps P (next x))
      → Keeps P (lift done >>= next)
  Keeps-bind-lift done next k = record { at = λ now p. Keeps-carry_on done next k now p }

module _ {ℓ} {S : Type ℓ} {X : Type 0} {P : S → Type ℓ} where
  pub Keeps-lift : (done : Result X) → Keeps P (lift done)
  Keeps-lift done = record { at = λ now p. p }
