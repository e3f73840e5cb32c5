-- ===== src/Prelude/Exec.antt =====
-- Methods that change a state and may raise. A write made before a raise stays in the session, so
-- the state comes back beside the error too.
use mathlib.Core.Path.{◌≡◌, refl}
use mathlib.Core.Logic.{◌⊎◌, inl, inr}

pub data Result {ℓ} (X A : Type ℓ) : Type ℓ where
  ok : A → Result X A
  err : X → Result X A

pub Result-cases :
    {X A : Type 0} (r : Result X A) → ((x : X) × (r ≡ err x)) ⊎ ((a : A) × (r ≡ ok a))
Result-cases (err x) = inl (x, refl)
Result-cases (ok a) = inr (a, refl)

abbrev pub Exec {ℓ} : Type ℓ → Type ℓ → Type ℓ → Type ℓ
Exec S X A = S → Result X A × S

module _ {ℓ} {S X A : Type ℓ} where
  abbrev pub pure : A → Exec S X A
  pure a s = (ok a, s)

  abbrev pub raise : X → Exec S X A
  raise e s = (err e, s)

  abbrev pub gets : (S → A) → Exec S X A
  gets f s = (ok (f s), s)

  abbrev pub lift : Result X A → Exec S X A
  lift r s = (r, s)

module _ {ℓ} {S X A B : Type ℓ} where
  abbrev continue : Result X A → (A → Exec S X B) → Exec S X B
  continue (ok a) f s = f a s
  continue (err e) f s = (err e, s)

  infixl 10 ◌>>=◌ ◌>>◌
  abbrev pub ◌>>=◌ : Exec S X A → (A → Exec S X B) → Exec S X B
  ◌>>=◌ m f s = let (r, s') = m s in continue r f s'

  abbrev pub ◌>>◌ : Exec S X A → Exec S X B → Exec S X B
  m >> n = m >>= λ _. n
