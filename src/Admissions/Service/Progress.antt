-- ===== src/Admissions/Service/Progress.antt =====
-- The methods of `AdmissionsService` move applications along the lifecycle.
pub mod Stores
pub mod Methods
pub mod Enroll
pub mod Served
use mathlib.Core.Bool.{false≢true}
use mathlib.Core.Path.{subst}
use onwlms.Prelude.{Option, inl, inr, nat_eq, none, pair_eq, some, string_eq, suc, ℕ, ◌≡◌}
use onwlms.Prelude.Dict.{lookup}
use onwlms.Core.{Result, Result-cases, ok}
use onwlms.Core.Exec.{◌>>=◌}
use onwlms.Core.Exec.Relates.{Relates}
use onwlms.Admissions.Lifecycle.{Lifecycle}
use onwlms.Admissions.Models.{Application}
use onwlms.Admissions.Repository.{Repository, TenantKey}
use onwlms.Admissions.Service.{World, commit}
use onwlms.Admissions.Status.{ApplicationStatus, reservation_eq, stage_eq, status_eq}

-- Some steps of the lifecycle.
abbrev pub Steps : ApplicationStatus → ApplicationStatus → Type 0
Steps s t = (n : ℕ) × Lifecycle s n t

pub Steps-trans :
    {s t u : ApplicationStatus} {n m : ℕ} → Lifecycle s n t → Lifecycle t m u → Steps s u
Steps-trans l Lifecycle.start = (_, l)
Steps-trans l (Lifecycle.step u m h) =
    let (k, lm) = Steps-trans l m in (suc k, Lifecycle.step u lm h)

-- What may become of the application under a key.
abbrev pub Moves : Option Application → Option Application → Type 0
Moves none none = Unit {0}
Moves none (some b) = Steps ApplicationStatus.draft b.status
Moves (some a) none = ⊥
Moves (some a) (some b) = Steps a.status b.status

pub Moves-refl : (o : Option Application) → Moves o o
Moves-refl none = tt
Moves-refl (some a) = (0, Lifecycle.start)

Moves-trans : (o p q : Option Application) → Moves o p → Moves p q → Moves o q
Moves-trans none none q h g = g
Moves-trans none (some b) none h g = elim g [ ]
Moves-trans none (some b) (some c) (n, l) (m, l') = Steps-trans l l'
Moves-trans (some a) none q h g = elim h [ ]
Moves-trans (some a) (some b) none h g = g
Moves-trans (some a) (some b) (some c) (n, l) (m, l') = Steps-trans l l'

abbrev pub Advances : Repository → Repository → Type 0
Advances r r' = (k : TenantKey) → Moves (lookup k r.applications) (lookup k r'.applications)

-- No application is lost, a new one begins as a draft, and a status changes along the lifecycle.
abbrev pub Progress : World → World → Type 0
Progress w w' = Advances w.repository w'.repository

pub Progress-same : (w : World) → Progress w w
Progress-same w k = Moves-refl _

pub Progress-trans : (w v u : World) → Progress w v → Progress v u → Progress w u
Progress-trans w v u h g k = Moves-trans _ _ _ (h k) (g k)

module _ (store : Repository → Result Repository) where
  pub commit-Progress :
      ((r r' : Repository) → store r ≡ ok r' → Advances r r') → Relates Progress (commit store)
  unfolding ◌>>=◌
  commit-Progress h = record {
    at = λ w. elim (Result-cases (store w.repository)) [
      | inl (r', e) ↦ rw e (h w.repository r' e)
      | inr (x, e) ↦ rw e (Progress-same w)
    ];
  }
