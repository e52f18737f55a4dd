-- ===== src/Admissions/Repository/Conversions.antt =====
-- The methods of `InMemoryAdmissionsRepository` on enrollment conversions.
use onwlms.Prelude.{
  Bool, Option, if◌then◌else◌, nat_eq, none, not, pair_eq, some, string_eq, true, ◌&&◌, ◌==◌,
}
use onwlms.Prelude.Dict.{insert, lookup}
use onwlms.Core.{Result, Uuid, enrollment_conversion, ok, or_raise, raise_if, ◌>>=◌, ◌>>◌}
use onwlms.Admissions.Models.{Application}
use onwlms.Admissions.Repository.{Repository, TenantKey, has_moved}
use onwlms.Admissions.Reservation.{EnrollmentConversion, SeatReservation, is_completed}
use onwlms.Admissions.Status.{
  ApplicationStatus, ReservationStatus, reservation_eq, stage_eq, status_eq,
}

-- `begin_conversion`: the first conversion of an application stays.
unfoldable pub begin_conversion :
    EnrollmentConversion → Repository → EnrollmentConversion × Repository
begin_conversion conversion r =
    let key : TenantKey = (conversion.organization_id, conversion.application_id) in
    elim (lookup key r.conversions) [
      | some existing ↦ (existing, r)
      | none ↦ (conversion, record r { conversions = insert key conversion r.conversions })
    ]

unfoldable pub get_conversion_for_application :
    Uuid → Uuid → Repository → Option EnrollmentConversion
get_conversion_for_application organization_id application_id r =
    lookup (organization_id, application_id) r.conversions

-- `current is None or current.status is not ReservationStatus.ACTIVE`
abbrev pub is_not_active : Option SeatReservation → Bool
is_not_active none = true
is_not_active (some s) = not (s.status == ReservationStatus.active)

abbrev pub same_result : EnrollmentConversion → EnrollmentConversion → Bool
same_result a b =
    a.student_id == b.student_id && a.academic_enrollment_id == b.academic_enrollment_id

-- What `complete_conversion` does when the stored conversion is still pending.
unfoldable pub consume :
    EnrollmentConversion → Application → SeatReservation → Repository → Result Repository
consume conversion application reservation r = do
  let application_key : TenantKey = (application.organization_id, application.id)
  raise_if (has_moved (lookup application_key r.applications) ApplicationStatus.accepted)
      enrollment_conversion
  let reservation_key : TenantKey = (reservation.organization_id, reservation.id)
  raise_if (is_not_active (lookup reservation_key r.reservations)) enrollment_conversion
  ok (record r {
    conversions =
        insert (conversion.organization_id, conversion.application_id) conversion r.conversions;
    applications = insert application_key application r.applications;
    reservations = insert reservation_key reservation r.reservations;
  })

unfoldable pub complete_conversion :
    EnrollmentConversion → Application → SeatReservation → Repository → Result Repository
complete_conversion conversion application reservation r = do
  existing ←
      or_raise (lookup (conversion.organization_id, conversion.application_id) r.conversions)
        enrollment_conversion
  if is_completed existing.status
      then (do raise_if (not (same_result existing conversion)) enrollment_conversion; ok r)
      else consume conversion application reservation r
