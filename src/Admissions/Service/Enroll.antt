-- ===== src/Admissions/Service/Enroll.antt =====
-- `enroll_accepted_application` of backend/src/admissions/application/service.py.
use onwlms.Prelude.{
  Bool, Option, false, if◌then◌else◌, nat_eq, none, not, pair_eq, some, string_eq, true, ◌&&◌, ◌==◌,
}
use onwlms.Core.{TenantActorContext, Uuid, enrollment_conversion, ok, or_raise}
use onwlms.Core.Exec.{gets, lift, pure, require, ◌>>=◌, ◌>>◌}
use onwlms.Core.Time.{DateTime}
use onwlms.Admissions.Models.{ApplicantProfile, Application}
use onwlms.Admissions.Repository.{get_applicant_profile}
use onwlms.Admissions.Repository.Conversions.{
  begin_conversion, complete_conversion, get_conversion_for_application,
}
use onwlms.Admissions.Repository.Quotas.{get_reservation_for_application}
use onwlms.Admissions.Reservation.{
  EnrollmentConversion, SeatReservation, check_conversion, check_is_active_at, check_reservation,
  is_completed, transition_application,
}
use onwlms.Admissions.Service.{
  AcceptedApplicantEnrollmentCommand, AcceptedApplicantEnrollmentResult, Action, Ports,
  admissions_enroll, authorize, commit, require_application,
}
use onwlms.Admissions.Status.{
  ApplicationStatus, DepositStatus, EnrollmentConversionStatus, ReservationStatus, reservation_eq,
  stage_eq, status_eq,
}

-- What a call takes from `new_uuid7` and, before and after the registrar, from the clock.
pub record EnrollmentInputs : Type 0 where
  pub now : DateTime
  pub completed_at : DateTime
  pub conversion_id : Uuid
  pub student_id : Uuid
  pub academic_enrollment_id : Uuid

abbrev pub result_of : EnrollmentConversion → AcceptedApplicantEnrollmentResult
result_of c = record {
  student_id = c.student_id;
  academic_enrollment_id = c.academic_enrollment_id;
}

abbrev pub is_settled : DepositStatus → Bool
is_settled DepositStatus.satisfied = true
is_settled DepositStatus.waived = true
is_settled _ = false

-- Whether the deposit still stands in the way.
abbrev pub is_unpaid : Ports → TenantActorContext → Application → Bool
is_unpaid ports context a =
    a.deposit.required
    && not (is_settled a.deposit.status)
    && not (ports.is_satisfied context.organization_id a.id a.deposit)

-- `begin_conversion` as an action.
abbrev pub begin : EnrollmentConversion → Action EnrollmentConversion
begin requested w =
    let (conversion, r) = begin_conversion requested w.repository in
    (ok conversion, record w { repository = r })

-- The conversion that the call works on: a stored one, or a new one that the seat and the deposit
-- allow.
unfoldable pub obtain_conversion :
    Ports
    → TenantActorContext
    → EnrollmentInputs
    → Application
    → SeatReservation
    → Option EnrollmentConversion
    → Action EnrollmentConversion
obtain_conversion ports context inputs application reservation (some existing) = pure existing
obtain_conversion ports context inputs application reservation none = do
  is_held ← lift (check_is_active_at reservation inputs.now)
  require is_held enrollment_conversion
  require (not (is_unpaid ports context application)) enrollment_conversion
  requested ← lift (
      check_conversion (record {
        id = inputs.conversion_id;
        organization_id = context.organization_id;
        application_id = application.id;
        status = EnrollmentConversionStatus.pending;
        requested_by = context.subject_id;
        correlation_id = context.correlation_id;
        requested_at = inputs.now;
        student_id = inputs.student_id;
        academic_enrollment_id = inputs.academic_enrollment_id;
        completed_at = none;
      }))
  begin requested

abbrev command_of :
    TenantActorContext
    → Application
    → EnrollmentConversion
    → ApplicantProfile
    → AcceptedApplicantEnrollmentCommand
command_of context application conversion profile = record {
  idempotency_key = conversion.id;
  organization_id = context.organization_id;
  application_id = application.id;
  student_profile_id = conversion.student_id;
  academic_enrollment_id = conversion.academic_enrollment_id;
  program_id = application.program_id;
  intake_id = application.intake_id;
  requested_at = conversion.requested_at;
  actor_subject_id = conversion.requested_by;
  correlation_id = conversion.correlation_id;
  given_name = profile.given_name;
  family_name = profile.family_name;
  email = profile.email;
  phone = profile.phone;
}

-- From the registrar's answer to the stored completion.
unfoldable pub finish_conversion :
    DateTime
    → Application
    → SeatReservation
    → EnrollmentConversion
    → AcceptedApplicantEnrollmentResult
    → Action AcceptedApplicantEnrollmentResult
finish_conversion completed_at application reservation conversion result = do
  require
      (result.student_id == conversion.student_id
        && result.academic_enrollment_id == conversion.academic_enrollment_id)
      enrollment_conversion
  completed ← lift (
      check_conversion (record conversion {
        status = EnrollmentConversionStatus.completed;
        student_id = result.student_id;
        academic_enrollment_id = result.academic_enrollment_id;
        completed_at = some completed_at;
      }))
  enrolled_application ←
      lift (transition_application application ApplicationStatus.enrolled completed_at)
  consumed_reservation ← lift (
      check_reservation (record reservation {
        status = ReservationStatus.consumed;
        consumed_at = some completed_at;
      }))
  commit (complete_conversion completed enrolled_application consumed_reservation)
  pure result

-- From the conversion in hand on.
unfoldable pub enroll_with :
    Ports
    → TenantActorContext
    → EnrollmentInputs
    → Application
    → SeatReservation
    → EnrollmentConversion
    → Action AcceptedApplicantEnrollmentResult
enroll_with ports context inputs application reservation conversion =
    if is_completed conversion.status then pure (result_of conversion) else do
      found ← gets (λ w.
          get_applicant_profile context.organization_id application.applicant_profile_id
            w.repository)
      profile ← lift (or_raise found enrollment_conversion)
      result ←
          lift (ports.enroll_accepted_applicant (command_of context application conversion profile))
      finish_conversion inputs.completed_at application reservation conversion result

-- `existing_conversion is not None and existing_conversion.status is COMPLETED`
abbrev pub completed_one : Option EnrollmentConversion → Option EnrollmentConversion
completed_one none = none
completed_one (some c) = if is_completed c.status then some c else none

-- The steps for an application whose conversion is not complete.
unfoldable pub convert :
    Ports
    → TenantActorContext
    → EnrollmentInputs
    → Application
    → Option EnrollmentConversion
    → Action AcceptedApplicantEnrollmentResult
convert ports context inputs application existing_conversion = do
  require (application.status == ApplicationStatus.accepted) enrollment_conversion
  found ←
      gets
        (λ w. get_reservation_for_application context.organization_id application.id w.repository)
  reservation ← lift (or_raise found enrollment_conversion)
  require (reservation.status == ReservationStatus.active) enrollment_conversion
  conversion ← obtain_conversion ports context inputs application reservation existing_conversion
  enroll_with ports context inputs application reservation conversion

-- A completed conversion is the answer; another one is worked on.
unfoldable pub resume :
    Ports
    → TenantActorContext
    → EnrollmentInputs
    → Application
    → Option EnrollmentConversion
    → Option EnrollmentConversion
    → Action AcceptedApplicantEnrollmentResult
resume ports context inputs application existing_conversion (some c) = pure (result_of c)
resume ports context inputs application existing_conversion none =
    convert ports context inputs application existing_conversion

unfoldable pub enroll_accepted_application :
    Ports → TenantActorContext → EnrollmentInputs → Uuid → Action AcceptedApplicantEnrollmentResult
enroll_accepted_application ports context inputs application_id = do
  authorize context admissions_enroll
  application ← require_application context application_id
  existing_conversion ←
      gets (λ w. get_conversion_for_application context.organization_id application.id w.repository)
  resume ports context inputs application existing_conversion (completed_one existing_conversion)
