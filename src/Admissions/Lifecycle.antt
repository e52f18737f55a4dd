-- ===== src/Admissions/Lifecycle.antt =====
-- The lifecycle of an application: `_ALLOWED_TRANSITIONS` and `transition_application` of
-- backend/src/admissions/domain/models.py.
use onwlms.Prelude.{
  ap, arith, false, nat_eq, pair_eq, string_eq, suc, true, ℕ, ◌+◌, ◌<◌, ◌↔◌, ◌≡◌, ◌≢◌, ◌≤◌,
}
use onwlms.Core.{ok}
use onwlms.Core.Text.{is_blank}
use onwlms.Core.Time.{DateTime, is_naive}
use onwlms.Admissions.Models.{Application}
use onwlms.Admissions.Reservation.{transition_application}
use onwlms.Admissions.Service.Intake.{is_final}
use onwlms.Admissions.Status.{
  ApplicationStatus, allowed_transitions, may_become, reservation_eq, stage_eq, status_eq,
}

-- How far a status is along the lifecycle.
abbrev rank : ApplicationStatus → ℕ
rank ApplicationStatus.draft = 0
rank ApplicationStatus.submitted = 1
rank ApplicationStatus.awaiting_exam = 2
rank ApplicationStatus.awaiting_interview = 3
rank ApplicationStatus.under_review = 4
rank ApplicationStatus.waitlisted = 5
rank ApplicationStatus.accepted = 6
rank ApplicationStatus.rejected = 7
rank ApplicationStatus.enrolled = 7
rank ApplicationStatus.withdrawn = 7

pub rank_grows : (s t : ApplicationStatus) → may_become s t ≡ true → rank s < rank t
unfolding allowed_transitions
rank_grows s t h = ground arith

-- A chain of calls of `transition_application`, with the number of its steps.
pub data Lifecycle (s : ApplicationStatus) : ℕ → ApplicationStatus → Type 0 where
  start : Lifecycle s 0 s
  step :
      {n : ℕ} {t : ApplicationStatus} (u : ApplicationStatus)
      → Lifecycle s n t
      → may_become t u ≡ true
      → Lifecycle s (suc n) u

Lifecycle-rank : {s t : ApplicationStatus} {n : ℕ} → Lifecycle s n t → n + rank s ≤ rank t
Lifecycle-rank start = omega arith
Lifecycle-rank (step {t = t} u l h) = omega (arith, Lifecycle-rank l, rank_grows t u h)

rank-le : (s : ApplicationStatus) → rank s ≤ 7
rank-le s = ground arith

-- An application takes at most seven steps, and after one step or more it is never again in a
-- status that it has left.
pub Lifecycle-ends : {s t : ApplicationStatus} {n : ℕ} → Lifecycle s n t → (n ≤ 7) × (0 < n → s ≢ t)
Lifecycle-ends {s} {t} {n} l = (
  omega (arith, Lifecycle-rank l, rank-le t),
  λ pos e. absurd (omega (arith, Lifecycle-rank l, ap rank e)),
)

-- Rejected, enrolled and withdrawn applications change no more, every other status can be
-- withdrawn, and the only way to be enrolled is to have been accepted.
pub transition_table :
    (s t : ApplicationStatus)
    → (may_become s t ≡ true → is_final s ≡ false)
      × (is_final s ≡ false → may_become s ApplicationStatus.withdrawn ≡ true)
      × (may_become s ApplicationStatus.enrolled ≡ true → s ≡ ApplicationStatus.accepted)
unfolding allowed_transitions
transition_table s t = (λ h. ground arith, λ h. ground arith, λ h. ground arith)

-- A transition succeeds exactly at an aware time, to a status that the table allows, of an
-- application with a category and aware times; it changes the status and its time only.
pub transition_application_iff :
    (a b : Application) (t : ApplicationStatus) (at : DateTime)
    → (transition_application a t at ≡ ok b) ↔ (
        (is_naive at ≡ false)
        × (may_become a.status t ≡ true)
        × (is_blank a.seat_category ≡ false)
        × (is_naive a.created_at ≡ false)
        × (b ≡ record a { status = t; status_changed_at = at }))
unfolding transition_application
transition_application_iff a b t at = (λ h. ground arith, λ h. ground arith)
