-- ===== src/Exec.antt =====
-- Methods that read and write state and may raise. What was written before a raise stays
-- written, unless a transaction rolls it back.
pub mod Keeps
pub mod Ensures
use aisecure.Result.{Result, ok, err}

abbrev pub Exec {ℓ} : Type ℓ → Type ℓ → Type ℓ
Exec State Answer = State → Result Answer × State

module _ {ℓ} {S A : Type ℓ} where
  unfoldable pub pure : A → Exec S A
  pure a s = (ok a, s)

  -- a computation that does not touch the state
  unfoldable pub lift : Result A → Exec S A
  lift r s = (r, s)

  -- one that reads it
  unfoldable pub reads : (S → Result A) → Exec S A
  reads f s = (f s, s)

module _ {ℓ} {S A B : Type ℓ} where
  abbrev pub continue : Result A → (A → Exec S B) → Exec S B
  continue (ok answer) next state = next answer state
  continue (err code) next state = (err code, state)

  infixl 10 ◌>>=◌
  -- opening this opens the steps above too
  unfoldable pub ◌>>=◌ : Exec S A → (A → Exec S B) → Exec S B
  unfolding pure lift reads
  ◌>>=◌ m f s = let (r, t) = m s in continue r f t

module _ {S B : Type 0} where
  infixl 10 ◌>>◌
  abbrev pub ◌>>◌ : Exec S (Unit {0}) → Exec S B → Exec S B
  m >> k = m >>= λ _. k
