-- ===== src/Grading/Rules.antt =====
-- Rules for what an action of the grading service does to the repository.
use mathlib.Core.Path.{subst}
use onwlms.Prelude.{arith, nat_eq, pair_eq, refl, string_eq, ◌≡◌}
use onwlms.Core.{Result, err, ok}
use onwlms.Core.Exec.{gets, write, ◌>>=◌}
use onwlms.Core.Exec.Relates.{Relates}
use onwlms.Core.Exec.Views.{OnView, Spares, Spares-bind, bind-Spares, write-Relates}
use onwlms.Grading.Repository.{Evidence, GradingRepository}
use onwlms.Grading.Service.{
  GradingAction, GradingEvent, GradingPorts, GradingWorld, log_event, settle_evidence, store,
  with_repository,
}

abbrev repository_of : GradingWorld → GradingRepository
repository_of w = w.repository

-- A relation of repositories, over the worlds that hold them.
abbrev pub OnRepository :
    (GradingRepository → GradingRepository → Type 0) → GradingWorld → GradingWorld → Type 0
OnRepository Q = OnView repository_of Q

-- An action that does not write to the repository.
abbrev pub IsQuiet : {A : Type 0} → GradingAction A → Type 0
IsQuiet m = Spares repository_of m

write-IsQuiet :
    (f : GradingWorld → Result GradingWorld)
    → ((w w' : GradingWorld) → f w ≡ ok w' → w.repository ≡ w'.repository)
    → IsQuiet (write f)
write-IsQuiet f k = write-Relates repository_of (λ r r'. r ≡ r') (λ r. refl) f k

pub settle_evidence-IsQuiet : (f : Evidence → Result Evidence) → IsQuiet (settle_evidence f)
settle_evidence-IsQuiet f = write-IsQuiet _ (λ w w' h. ground (arith, h))

pub log_event-IsQuiet : (ports : GradingPorts) (e : GradingEvent) → IsQuiet (log_event ports e)
log_event-IsQuiet ports e = write-IsQuiet _ (λ w w' h. ground (arith, h))

stored_source :
    (w w' : GradingWorld) (r : Result GradingRepository)
    → with_repository w r ≡ ok w'
    → r ≡ ok w'.repository
stored_source w w' (ok r) h = ground (arith, h)
stored_source w w' (err e) h = absurd (ground (arith, h))

module _ (Q : GradingRepository → GradingRepository → Type 0)
    (same : (r : GradingRepository) → Q r r) where
  pub of_quiet : {A : Type 0} (m : GradingAction A) → IsQuiet m → Relates (OnRepository Q) m
  of_quiet m k = record { at = λ w. subst (Q w.repository) (k.at w) (same w.repository) }

  pub quiet-bind :
      {A B : Type 0} (m : GradingAction A) (f : A → GradingAction B)
      → IsQuiet m
      → ((a : A) → Relates (OnRepository Q) (f a))
      → Relates (OnRepository Q) (m >>= f)
  quiet-bind = Spares-bind repository_of Q same

  -- What follows a write does not write again.
  pub bind-quiet :
      {A B : Type 0} (m : GradingAction A) (f : A → GradingAction B)
      → Relates (OnRepository Q) m
      → ((a : A) → IsQuiet (f a))
      → Relates (OnRepository Q) (m >>= f)
  bind-quiet = bind-Spares repository_of Q same

  -- The rest of the block may use what it has read of the state.
  pub gets_known :
      {A B : Type 0} (g : GradingWorld → A) (f : A → GradingAction B)
      → ((a : A) → Relates (λ w w'. g w ≡ a → OnRepository Q w w') (f a))
      → Relates (OnRepository Q) (gets g >>= f)
  unfolding ◌>>=◌
  gets_known g f k = record { at = λ w. (k (g w)).at w refl }

  pub of_store :
      (f : GradingRepository → Result GradingRepository)
      → ((r r' : GradingRepository) → f r ≡ ok r' → Q r r')
      → Relates (OnRepository Q) (store f)
  of_store f k =
      write-Relates repository_of Q same _
        (λ w w' h. k w.repository w'.repository (stored_source w w' (f w.repository) h))
