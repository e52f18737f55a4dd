-- ===== src/Core/Exec/Views.antt =====
-- Relations on a part of the state, such as the repository in a service's world.
use mathlib.Core.Path.{subst}
use onwlms.Prelude.{arith, inl, inr, nat_eq, pair_eq, string_eq, sym, ◌≡◌}
use onwlms.Core.{AppError, Result, Result-cases, err, ok}
use onwlms.Core.Exec.{Exec, continue, write, ◌>>=◌}
use onwlms.Core.Exec.Relates.{Relates}

module _ {S T : Type 0} (view : S → T) where
  abbrev pub OnView : (T → T → Type 0) → S → S → Type 0
  OnView Q s s' = Q (view s) (view s')

  -- An action that does not write to the part.
  abbrev pub Spares : {A : Type 0} → Exec S A → Type 0
  Spares m = Relates (OnView (λ t t'. t ≡ t')) m

  module _ {A B : Type 0} (Q : T → T → Type 0) (same : (t : T) → Q t t) where
    pub Spares-bind :
        (m : Exec S A) (f : A → Exec S B)
        → Spares m
        → ((a : A) → Relates (OnView Q) (f a))
        → Relates (OnView Q) (m >>= f)
    unfolding ◌>>=◌
    Spares-bind m f km kf = record { at = λ s. after (m s).0 s (m s).1 (km.at s) }
      where
        after : (r : Result A) (s u : S) → view s ≡ view u → Q (view s) (view (continue r f u).1)
        after (ok a) s u e = subst (λ t. Q t (view (f a u).1)) (sym e) ((kf a).at u)
        after (err x) s u e = subst (Q (view s)) e (same (view s))

    -- What follows does not write again.
    pub bind-Spares :
        (m : Exec S A) (f : A → Exec S B)
        → Relates (OnView Q) m
        → ((a : A) → Spares (f a))
        → Relates (OnView Q) (m >>= f)
    unfolding ◌>>=◌
    bind-Spares m f km kf = record { at = λ s. after (m s).0 s (m s).1 (km.at s) }
      where
        after :
            (r : Result A) (s u : S) → Q (view s) (view u) → Q (view s) (view (continue r f u).1)
        after (ok a) s u h = subst (Q (view s)) ((kf a).at u) h
        after (err x) s u h = h

  pub write-Relates :
      (Q : T → T → Type 0) (same : (t : T) → Q t t) (f : S → Result S)
      → ((s s' : S) → f s ≡ ok s' → Q (view s) (view s'))
      → Relates (OnView Q) (write f)
  unfolding ◌>>=◌
  write-Relates Q same f k = record {
    at = λ s. elim (Result-cases (f s)) [
      | inl (s', h) ↦ subst (λ p. Q (view s) (view p.1)) (sym (settled s s' h)) (k s s' h)
      | inr (x, h) ↦ subst (λ p. Q (view s) (view p.1)) (sym (refused s x h)) (same (view s))
    ];
  }
    where
      settled : (s s' : S) → f s ≡ ok s' → write f s ≡ (ok tt, s')
      settled s s' h = ground (arith, h)

      refused : (s : S) (x : AppError) → f s ≡ err x → write f s ≡ (err x, s)
      refused s x h = ground (arith, h)
