-- ===== src/Tests/Enrolling.antt =====
-- An enrollment, for the theorems on backend/src/admissions.
use onwlms.Prelude.{[], leb, nat_eq, none, pair_eq, refl, some, string_eq, ◌+◌, ◌≡◌}
use onwlms.Prelude.Dict.{insert, lookup, to_ℕ}
use onwlms.Core.{TenantActorContext, ok}
use onwlms.Core.Exec.{◌>>=◌}
use onwlms.Core.Text.{is_blank}
use onwlms.Admissions.Models.{ApplicantProfile, Application, check_application}
use onwlms.Admissions.Repository.{Repository, get_applicant_profile, get_application}
use onwlms.Admissions.Repository.Capacity.{complete-occupied}
use onwlms.Admissions.Repository.Conversions.{
  begin_conversion, complete_conversion, consume, get_conversion_for_application,
}
use onwlms.Admissions.Repository.Keyed.{
  WellKeyed, put_application_reservations, put_applications, put_decisions, put_profiles,
  put_reservations,
}
use onwlms.Admissions.Repository.Quotas.{get_reservation_for_application}
use onwlms.Admissions.Repository.Seats.{occupied}
use onwlms.Admissions.Reservation.{
  EnrollmentConversion, SeatReservation, check_conversion, check_is_active_at, check_reservation,
  transition_application,
}
use onwlms.Admissions.Service.{AcceptedApplicantEnrollmentResult, World}
use onwlms.Admissions.Service.Enroll.{
  EnrollmentInputs, convert, enroll_accepted_application, enroll_with, finish_conversion,
  obtain_conversion, resume,
}
use onwlms.Admissions.Service.Idempotent.Enroll.{enroll_accepted_application_idempotent}
use onwlms.Admissions.Status.{
  ApplicationStatus, EnrollmentConversionStatus, ReservationStatus, allowed_transitions,
  reservation_eq, stage_eq, status_eq,
}
use onwlms.Tests.Admissions.{
  acceptance, accepted, application, intake-WellKeyed, officer, ports, quota, seat, seated, world,
}
use onwlms.Tests.Scheduling.{at}

abbrev conversion : EnrollmentConversion
conversion = record {
  id = 60;
  organization_id = 1;
  application_id = 5;
  status = EnrollmentConversionStatus.completed;
  requested_by = 8;
  correlation_id = "c";
  requested_at = at 400;
  student_id = 61;
  academic_enrollment_id = 62;
  completed_at = some (at 1500);
}

abbrev consumed : SeatReservation
consumed = record seat { status = ReservationStatus.consumed; consumed_at = some (at 1500) }

abbrev enrolled : Application
enrolled = record (application 5 ApplicationStatus.enrolled) { status_changed_at = at 1500 }

abbrev converted : Repository
converted = record seated {
  conversions = insert (1, 5) conversion [];
  applications = insert (1, 5) enrolled seated.applications;
  reservations = insert (1, 40) consumed seated.reservations;
}

converts : consume conversion enrolled consumed seated ≡ ok converted
unfolding consume insert lookup
converts = refl

-- The reservation had expired at 1200, when its seat was free for another applicant.
complete-occupied_example :
    occupied quota (at 1300) converted ≡ occupied quota (at 1300) seated + to_ℕ (leb 1200 1300)
unfolding insert lookup
complete-occupied_example =
    complete-occupied conversion enrolled consumed seat quota (at 1300) seated converted converts
      refl refl refl refl

abbrev profile : ApplicantProfile
profile = record {
  id = 20;
  organization_id = 1;
  given_name = "Ada";
  family_name = "Lovelace";
  email = some "ada@example.org";
  phone = none;
}

abbrev enrolling : World
enrolling = record world { repository = record seated { profiles = insert (1, 20) profile [] } }

enrolling-WellKeyed : WellKeyed enrolling.repository
enrolling-WellKeyed =
    put_profiles
      (put_decisions
        (put_application_reservations
          (put_reservations (put_applications intake-WellKeyed accepted) seat) _)
        acceptance)
      profile

abbrev inputs : EnrollmentInputs
inputs = record {
  now = at 400;
  completed_at = at 1500;
  conversion_id = 60;
  student_id = 61;
  academic_enrollment_id = 62;
}

abbrev later_inputs : EnrollmentInputs
later_inputs = record {
  now = at 2000;
  completed_at = at 2001;
  conversion_id = 70;
  student_id = 71;
  academic_enrollment_id = 72;
}

abbrev answer : AcceptedApplicantEnrollmentResult
answer = record { student_id = 61; academic_enrollment_id = 62 }

abbrev finished : World
finished = record enrolling {
  repository = record converted { profiles = insert (1, 20) profile [] };
}

abbrev colleague : TenantActorContext
colleague = record officer { subject_id = 18; membership_id = 19 }

enrolls : enroll_accepted_application ports officer inputs 5 enrolling ≡ (ok answer, finished)
unfolding enroll_accepted_application resume convert obtain_conversion enroll_with finish_conversion
    begin_conversion complete_conversion consume insert lookup get_application
    get_conversion_for_application get_reservation_for_application get_applicant_profile ◌>>=◌
    check_is_active_at check_conversion check_reservation transition_application check_application
    is_blank onwlms.Core.Text.text_length allowed_transitions
enrolls = refl

enroll_accepted_application_idempotent_example :
    enroll_accepted_application ports colleague later_inputs 5 finished ≡ (ok answer, finished)
enroll_accepted_application_idempotent_example =
    enroll_accepted_application_idempotent ports ports officer colleague inputs later_inputs 5
      answer enrolling finished enrolling-WellKeyed enrolls refl refl
