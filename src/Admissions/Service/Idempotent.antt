-- ===== src/Admissions/Service/Idempotent.antt =====
-- A repeated `enroll_accepted_application` of backend/src/admissions/application/service.py.
pub mod Convert
pub mod Enroll
use mathlib.Core.Path.{subst}
use onwlms.Prelude.{
  Bool, Bool-cases, Option-cases, ap, arith, contains, false, inl, inr, nat_beq_iff, nat_eq,
  pair_eq, refl, some, string_eq, sym, true, ◌∙◌, ◌≡◌, ◌⊎◌,
}
use onwlms.Prelude.Dict.{Dict, lookup, lookup-insert_self}
use onwlms.Core.{AppError, Result, Result-cases, TenantActorContext, Uuid, err, ok}
use onwlms.Core.Exec.{ask, lift, pure, require, ◌>>=◌}
use onwlms.Core.Time.{DateTime}
use onwlms.Admissions.Lifecycle.{transition_application_iff}
use onwlms.Admissions.Models.{Application}
use onwlms.Admissions.Repository.{Repository, TenantKey, get_application}
use onwlms.Admissions.Repository.Capacity.{consume-eq-ok}
use onwlms.Admissions.Repository.Conversions.{
  complete_conversion, consume, get_conversion_for_application, same_result,
}
use onwlms.Admissions.Reservation.{
  EnrollmentConversion, SeatReservation, check_conversion, is_completed,
}
use onwlms.Admissions.Service.{
  AcceptedApplicantEnrollmentResult, Action, Ports, World, admissions_enroll, commit,
}
use onwlms.Admissions.Service.Enroll.{
  EnrollmentInputs, enroll_accepted_application, finish_conversion, result_of, resume,
}
use onwlms.Admissions.Status.{ApplicationStatus, reservation_eq, stage_eq, status_eq}

-- The enrollment of the application is complete, with this answer.
abbrev pub Done : Uuid → Uuid → AcceptedApplicantEnrollmentResult → World → Type 0
Done org id answer w =
    (a : Application) × (lookup (org, id) w.repository.applications ≡ some a)
    × (c : EnrollmentConversion) × (lookup (org, a.id) w.repository.conversions ≡ some c)
    × (is_completed c.status ≡ true)
    × (result_of c ≡ answer)

-- A block that returns has passed each of its tests, and each of its parts has returned.
module _ {B : Type 0} where
  pub require-ok :
      (b : Bool) (e : AppError) (f : Unit {0} → Action B) (s t : World) (x : B)
      → (require b e >>= f) s ≡ (ok x, t)
      → (b ≡ true) × (f tt s ≡ (ok x, t))
  unfolding ◌>>=◌
  require-ok true e f s t x h = (refl, h)
  require-ok false e f s t x h = absurd (ground (arith, ap (λ p. p.0) h))

  commit-run :
      (g : Repository → Result Repository) (f : Unit {0} → Action B) (s : World) (r : Repository)
      → g s.repository ≡ ok r
      → (commit g >>= f) s ≡ f tt (record s { repository = r })
  unfolding ◌>>=◌
  commit-run g f s r e = rw e refl

  commit-raised :
      (g : Repository → Result Repository) (f : Unit {0} → Action B) (s : World) (e : AppError)
      → g s.repository ≡ err e
      → (commit g >>= f) s ≡ (err e, s)
  unfolding ◌>>=◌
  commit-raised g f s e h = rw h refl

  pub commit-ok :
      (g : Repository → Result Repository) (f : Unit {0} → Action B) (s t : World) (x : B)
      → (commit g >>= f) s ≡ (ok x, t)
      → (r : Repository) × (g s.repository ≡ ok r)
        × (f tt (record s { repository = r }) ≡ (ok x, t))
  commit-ok g f s t x h = elim (Result-cases (g s.repository)) [
    | inl (r, e) ↦ (r, e, sym (commit-run g f s r e) ∙ h)
    | inr (e, raised) ↦
        absurd (ground (arith, ap (λ p. p.0) (sym (commit-raised g f s e raised) ∙ h)))
  ]

  pub pure-ok : (a b : B) (s t : World) → pure a s ≡ (ok b, t) → (a ≡ b) × (s ≡ t)
  unfolding ◌>>=◌
  pure-ok a b s t h = (ground (arith, ap (λ p. p.0) h), ap (λ p. p.1) h)

module _ {A B : Type 0} where
  pub lift-ok :
      (r : Result A) (f : A → Action B) (s t : World) (x : B)
      → (lift r >>= f) s ≡ (ok x, t)
      → (a : A) × (r ≡ ok a) × (f a s ≡ (ok x, t))
  unfolding ◌>>=◌
  lift-ok (ok a) f s t x h = (a, refl, h)
  lift-ok (err e) f s t x h = absurd (ground (arith, ap (λ p. p.0) h))

  pub ask-ok :
      (g : World → Result A) (f : A → Action B) (s t : World) (x : B)
      → (ask g >>= f) s ≡ (ok x, t)
      → (a : A) × (g s ≡ ok a) × (f a s ≡ (ok x, t))
  unfolding ◌>>=◌
  ask-ok g f s t x h = lift-ok (g s) f s t x h

pub conversion-kept : (c d : EnrollmentConversion) → check_conversion c ≡ ok d → d ≡ c
unfolding check_conversion
conversion-kept c d h = ground arith

pub at_key :
    {V : Type 0} (d : Dict TenantKey V) {o o' i i' : Uuid}
    → o ≡ o'
    → i ≡ i'
    → lookup (o, i) d ≡ lookup (o', i') d
at_key d p q = cc

-- The completion of a conversion was stored before, or is stored now.
complete-cases :
    (c : EnrollmentConversion) (a : Application) (v : SeatReservation) (r r' : Repository)
    → complete_conversion c a v r ≡ ok r'
    → ((d : EnrollmentConversion) × (lookup (c.organization_id, c.application_id) r.conversions
          ≡ some d)
        × (is_completed d.status ≡ true)
        × (same_result d c ≡ true)
        × (r' ≡ r))
      ⊎ (consume c a v r ≡ ok r')
unfolding complete_conversion
complete-cases c a v r r' h =
    elim (Option-cases (lookup (c.organization_id, c.application_id) r.conversions)) [
      | inl e ↦ absurd (ground (arith, h, e))
      | inr (d, e) ↦ elim (Bool-cases (is_completed d.status)) [
        | inl old ↦ inl (d, e, old, ground (arith, h, e, old), ground (arith, h, e, old))
        | inr open_one ↦ inr (ground (arith, h, e, open_one))
      ]
    ]

same-answer : (d c : EnrollmentConversion) → same_result d c ≡ true → result_of d ≡ result_of c
same-answer d c h = ground (
  arith,
  nat_beq_iff d.student_id c.student_id,
  nat_beq_iff d.academic_enrollment_id c.academic_enrollment_id,
)

complete-Done :
    (org id : Uuid) (c : EnrollmentConversion) (a b : Application) (v : SeatReservation)
    (w w' : World)
    → complete_conversion c a v w.repository ≡ ok w'.repository
    → is_completed c.status ≡ true
    → c.organization_id ≡ org
    → c.application_id ≡ id
    → a.organization_id ≡ org
    → a.id ≡ id
    → lookup (org, id) w.repository.applications ≡ some b
    → b.id ≡ id
    → Done org id (result_of c) w'
complete-Done org id c a b v w w' h completed c-org c-id a-org a-id stored b-id =
    elim (complete-cases c a v w.repository w'.repository h) [
      | inl (d, e, old, same, unchanged) ↦ (
        b,
        ap (λ (r : Repository). lookup (org, id) r.applications) unchanged ∙ stored,
        d,
        ap (λ (r : Repository). lookup (org, b.id) r.conversions) unchanged
            ∙ at_key w.repository.conversions (sym c-org) (b-id ∙ sym c-id)
            ∙ e,
        old,
        same-answer d c same,
      )
      | inr done ↦
          let (_, _, written) = consume-eq-ok c a v w.repository w'.repository done in
          (
            a,
            ap (λ (r : Repository). lookup (org, id) r.applications) written
                ∙ at_key _ (sym a-org) (sym a-id)
                ∙ lookup-insert_self (a.organization_id, a.id) a w.repository.applications,
            c,
            ap (λ (r : Repository). lookup (org, a.id) r.conversions) written
                ∙ at_key _ (sym c-org) (a-id ∙ sym c-id)
                ∙ lookup-insert_self (c.organization_id, c.application_id) c
                    w.repository.conversions,
            completed,
            refl,
          )
    ]

module _ (ports : Ports) (context : TenantActorContext) (inputs : EnrollmentInputs) where
  pub again :
      (id : Uuid) (answer : AcceptedApplicantEnrollmentResult) (w : World)
      → contains admissions_enroll context.permissions ≡ true
      → Done context.organization_id id answer w
      → enroll_accepted_application ports context inputs id w ≡ (ok answer, w)
  unfolding enroll_accepted_application resume get_application get_conversion_for_application ◌>>=◌
  again id answer w allowed (a, found, c, stored, completed, same) =
      rw (allowed, found, stored, completed, same) refl

  pub finish-Done :
      (id : Uuid) (at : DateTime) (a : Application) (v : SeatReservation) (c : EnrollmentConversion)
      (result answer : AcceptedApplicantEnrollmentResult) (w w' : World)
      → c.organization_id ≡ context.organization_id
      → c.application_id ≡ id
      → a.organization_id ≡ context.organization_id
      → a.id ≡ id
      → lookup (context.organization_id, id) w.repository.applications ≡ some a
      → finish_conversion at a v c result w ≡ (ok answer, w')
      → Done context.organization_id id answer w'
  unfolding finish_conversion
  finish-Done id at a v c result answer w w' c-org c-id a-org a-id stored h =
      let (same, h1) = require-ok _ _ _ w w' answer h in
      let (completed, checked, h2) = lift-ok _ _ w w' answer h1 in
      let (enrolled, moved, h3) = lift-ok _ _ w w' answer h2 in
      let (consumed, kept, h4) = lift-ok _ _ w w' answer h3 in
      let (r, written, h5) = commit-ok _ _ w w' answer h4 in
      let (same-result, end) = pure-ok _ _ _ _ h5 in
      let conversion = conversion-kept _ completed checked in
      let application =
        ((transition_application_iff a enrolled ApplicationStatus.enrolled at).0 moved).4 in
      let known =
        complete-Done context.organization_id id completed enrolled a consumed w w'
          (written ∙ ap (λ (w : World). ok w.repository) end)
          (ap (λ (c : EnrollmentConversion). is_completed c.status) conversion)
          (ap (λ (c : EnrollmentConversion). c.organization_id) conversion ∙ c-org)
          (ap (λ (c : EnrollmentConversion). c.application_id) conversion ∙ c-id)
          (ap (λ (a : Application). a.organization_id) application ∙ a-org)
          (ap (λ (a : Application). a.id) application ∙ a-id) stored a-id in
      subst (λ r. Done context.organization_id id r w') (ap result_of conversion ∙ same-result)
        known
