-- ===== src/Core/Exec.antt =====
-- Service methods: a call reads and writes a state and may raise. What was written before a raise
-- stays written, so the state comes back beside the exception too.
pub mod Relates
pub mod Views
use onwlms.Prelude.{Bool, true, false}
use onwlms.Core.Errors.{AppError, Result, ok, err}

abbrev pub Exec : Type 0 → Type 0 → Type 0
Exec S A = S → Result A × S

module _ {S A : Type 0} where
  pub pure : A → Exec S A
  pure a s = (ok a, s)

  pub gets : (S → A) → Exec S A
  gets f s = (ok (f s), s)

  -- A value that is computed without the state, or an exception.
  pub lift : Result A → Exec S A
  lift computed s = (computed, s)

  -- A read that may raise.
  pub ask : (S → Result A) → Exec S A
  ask f s = (f s, s)

module _ {S : Type 0} where
  pub modify : (S → S) → Exec S (Unit {0})
  modify f s = (ok tt, f s)

  -- `if not test: raise error`
  pub require : Bool → AppError → Exec S (Unit {0})
  require true e s = (ok tt, s)
  require false e s = (err e, s)

  abbrev settle : Result S → Exec S (Unit {0})
  settle (ok t) s = (ok tt, t)
  settle (err e) s = (err e, s)

  -- A write that raises leaves the state as it is.
  pub write : (S → Result S) → Exec S (Unit {0})
  write f s = settle (f s) s

module _ {S A B : Type 0} where
  abbrev pub continue : Result A → (A → Exec S B) → Exec S B
  continue (err raised) rest s = (err raised, s)
  continue (ok value) rest s = rest value s

  infixl 5 ◌>>=◌ ◌>>◌
  -- Opening this opens the other actions too.
  unfoldable pub ◌>>=◌ : Exec S A → (A → Exec S B) → Exec S B
  unfolding pure lift gets ask modify require write
  ◌>>=◌ first rest s = let (outcome, after) = first s in continue outcome rest after

  abbrev pub ◌>>◌ : Exec S A → Exec S B → Exec S B
  m >> n = m >>= λ _. n
