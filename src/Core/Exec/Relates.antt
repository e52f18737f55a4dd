-- ===== src/Core/Exec/Relates.antt =====
-- What an action does to the state, as a relation between the state before and the state after,
-- with a rule for each way to build an action.
use onwlms.Prelude.{◌≡◌, refl, Bool, true, false, if◌then◌else◌}
use onwlms.Core.Errors.{AppError, Result, ok, err}
use onwlms.Core.Exec.{Exec, pure, lift, gets, ask, require, continue, ◌>>=◌}

pub record Relates {S A : Type 0} (R : S → S → Type 0) (m : Exec S A) : Type 0 where
  pub at : (s : S) → R s (m s).1

module _ {S A : Type 0} {R : S → S → Type 0} (same : (s : S) → R s s) where
  pub Relates-pure : (a : A) → Relates R (pure a)
  unfolding pure
  Relates-pure a = record { at = same }

  pub Relates-lift : (r : Result A) → Relates R (lift r)
  unfolding lift
  Relates-lift r = record { at = same }

  pub Relates-ask : (f : S → Result A) → Relates R (ask f)
  unfolding ask
  Relates-ask f = record { at = same }

module _ {S A : Type 0} {R : S → S → Type 0} where
  pub Relates-if :
      (b : Bool) (m n : Exec S A)
      → (b ≡ true → Relates R m)
      → (b ≡ false → Relates R n)
      → Relates R (if b then m else n)
  Relates-if true m n km kn = km refl
  Relates-if false m n km kn = kn refl

-- A read or a test comes first: the rest of the block may use that it did not raise.
module _ {S A B : Type 0} {R : S → S → Type 0} (same : (s : S) → R s s) where
  pub Relates-lift-bind :
      (r : Result A) (f : A → Exec S B)
      → ((a : A) → r ≡ ok a → Relates R (f a))
      → Relates R (lift r >>= f)
  unfolding ◌>>=◌
  Relates-lift-bind (ok a) f k = k a refl
  Relates-lift-bind (err e) f k = record { at = same }

  pub Relates-gets-bind :
      (g : S → A) (f : A → Exec S B) → ((a : A) → Relates R (f a)) → Relates R (gets g >>= f)
  unfolding ◌>>=◌
  Relates-gets-bind g f k = record { at = λ s. (k (g s)).at s }

  pub Relates-ask-bind :
      (g : S → Result A) (f : A → Exec S B) → ((a : A) → Relates R (f a)) → Relates R (ask g >>= f)
  unfolding ◌>>=◌
  Relates-ask-bind g f k = record { at = λ s. (Relates-lift-bind (g s) f (λ a _. k a)).at s }

-- The rest of the block may use what it has read of the state.
module _ {S A B : Type 0} {R : S → S → Type 0} (same : (s : S) → R s s) where
  pub Relates-ask-known :
      (g : S → Result A) (f : A → Exec S B)
      → ((a : A) → Relates (λ s s'. g s ≡ ok a → R s s') (f a))
      → Relates R (ask g >>= f)
  unfolding ◌>>=◌
  Relates-ask-known g f k = record { at = λ s. run s (g s) refl }
    where
      run : (s : S) (r : Result A) → g s ≡ r → R s (continue r f s).1
      run s (ok a) e = (k a).at s e
      run s (err x) e = same s

module _ {S A : Type 0} {R Q : S → S → Type 0} where
  pub Relates-weaken : (m : Exec S A) → ((s t : S) → Q s t → R s t) → Relates Q m → Relates R m
  Relates-weaken m h k = record { at = λ s. h s (m s).1 (k.at s) }

module _ {S B : Type 0} {R : S → S → Type 0} (same : (s : S) → R s s) where
  pub Relates-require-bind :
      (b : Bool) (e : AppError) (f : Unit {0} → Exec S B)
      → (b ≡ true → Relates R (f tt))
      → Relates R (require b e >>= f)
  unfolding ◌>>=◌
  Relates-require-bind true e f k = record { at = λ s. (k refl).at s }
  Relates-require-bind false e f k = record { at = same }

module _ {S A B : Type 0} {R : S → S → Type 0} (chain : (s t u : S) → R s t → R t u → R s u) where
  -- One action after another, for a relation that composes.
  pub Relates-bind :
      (m : Exec S A) (f : A → Exec S B)
      → Relates R m
      → ((a : A) → Relates R (f a))
      → Relates R (m >>= f)
  unfolding ◌>>=◌
  Relates-bind m f km kf = record { at = λ s. let (r, t) = m s in after r s t (km.at s) }
    where
      after : (r : Result A) (s t : S) → R s t → R s (continue r f t).1
      after (ok a) s t h = chain s t (f a t).1 h ((kf a).at t)
      after (err e) s t h = h
