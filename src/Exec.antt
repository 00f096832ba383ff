-- ===== src/Exec.antt =====
-- Code that reads and writes a state and may raise: what was written before a raise stays written
-- until a handler undoes it, so the state comes back beside the error too.
pub mod Keeps
use token_bank.Prelude.{◌≡◌, Option, none, some, Bool, true, false}
use token_bank.Result.{Error, Result, ok, err}

abbrev pub Exec {ℓ} : Type ℓ → Type ℓ → Type ℓ
Exec S A = S → Result A × S

module _ {ℓ} {S A : Type ℓ} where
  unfoldable pub pure : A → Exec S A
  pure a s = (ok a, s)

  unfoldable pub raise : Error → Exec S A
  raise e s = (err e, s)

  unfoldable pub gets : (S → A) → Exec S A
  gets f s = (ok (f s), s)

  -- the row of a `fetchone()`, or the error that the caller raises on `None`
  unfoldable pub or_raise : Error → Option A → Exec S A
  unfolding pure raise
  or_raise e none = raise e
  or_raise e (some a) = pure a

module _ {S : Type 0} where
  -- `if test: raise`
  unfoldable pub raise_if : Bool → Error → Exec S (Unit {0})
  unfolding pure raise
  raise_if true e = raise e
  raise_if false e = pure tt

  unfoldable pub modify : (S → S) → Exec S (Unit {0})
  modify f s = (ok tt, f s)

module _ {ℓ} {S A B : Type ℓ} where
  abbrev pub continue : Result A → (A → Exec S B) → Exec S B
  continue (ok a) f s = f a s
  continue (err e) f s = (err e, s)

  infixl 10 ◌>>=◌ ◌>>◌
  unfoldable pub ◌>>=◌ : Exec S A → (A → Exec S B) → Exec S B
  unfolding pure raise gets or_raise raise_if modify
  ◌>>=◌ m f s = let (r, s') = m s in continue r f s'

  abbrev pub ◌>>◌ : Exec S A → Exec S B → Exec S B
  m >> n = m >>= λ _. n
