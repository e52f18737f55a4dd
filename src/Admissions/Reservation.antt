-- ===== src/Admissions/Reservation.antt =====
-- Reservations, decisions and conversions of backend/src/admissions/domain/models.py, and
-- `transition_application`.
use Prim.Native.String.{String}
use onwlms.Prelude.{
  Bool, Option, false, is_none, is_some, ltb, nat_eq, none, not, pair_eq, some, string_eq, true,
  ◌&&◌, ◌==◌, ◌||◌,
}
use onwlms.Core.{Result, Uuid, admissions_rule, application_transition, ok, raise_if, ◌>>◌}
use onwlms.Core.Text.{is_blank, text_length}
use onwlms.Core.Time.{DateTime, before, not_after, require_aware}
use onwlms.Admissions.Models.{Application, check_application}
use onwlms.Admissions.Status.{
  AdmissionDecisionOutcome, ApplicationStatus, EnrollmentConversionStatus, ReservationStatus,
  may_become, reservation_eq, stage_eq, status_eq,
}

-- `if value is not None: _require_aware(value)`
abbrev pub require_aware_if_some : Option DateTime → Result (Unit {0})
require_aware_if_some none = ok tt
require_aware_if_some (some t) = require_aware admissions_rule t

pub record SeatReservation : Type 0 where
  pub id : Uuid
  pub organization_id : Uuid
  pub quota_id : Uuid
  pub application_id : Uuid
  pub status : ReservationStatus
  pub reserved_at : DateTime
  pub expires_at : DateTime
  pub consumed_at : Option DateTime
  pub released_at : Option DateTime

unfoldable pub check_reservation : SeatReservation → Result SeatReservation
check_reservation r = do
  require_aware admissions_rule r.reserved_at
  require_aware admissions_rule r.expires_at
  raise_if (not_after r.expires_at r.reserved_at) admissions_rule
  require_aware_if_some r.consumed_at
  require_aware_if_some r.released_at
  raise_if (r.status == ReservationStatus.consumed && is_none r.consumed_at) admissions_rule
  raise_if (r.status == ReservationStatus.released && is_none r.released_at) admissions_rule
  ok r

-- `SeatReservation.is_active_at` at an aware time; it raises at a naive one
abbrev pub is_active_at : SeatReservation → DateTime → Bool
is_active_at r at = r.status == ReservationStatus.active && before at r.expires_at

unfoldable pub check_is_active_at : SeatReservation → DateTime → Result Bool
check_is_active_at r at = do require_aware admissions_rule at; ok (is_active_at r at)

abbrev pub is_acceptance : AdmissionDecisionOutcome → Bool
is_acceptance AdmissionDecisionOutcome.accepted = true
is_acceptance _ = false

pub record AdmissionDecision : Type 0 where
  pub id : Uuid
  pub organization_id : Uuid
  pub application_id : Uuid
  pub outcome : AdmissionDecisionOutcome
  pub decided_by : Uuid
  pub decided_at : DateTime
  pub reason : String
  pub reservation_id : Option Uuid

unfoldable pub check_decision : AdmissionDecision → Result AdmissionDecision
check_decision d = do
  raise_if (is_blank d.reason) admissions_rule
  require_aware admissions_rule d.decided_at
  raise_if (is_acceptance d.outcome && is_none d.reservation_id) admissions_rule
  raise_if (not (is_acceptance d.outcome) && is_some d.reservation_id) admissions_rule
  ok d

abbrev pub is_completed : EnrollmentConversionStatus → Bool
is_completed EnrollmentConversionStatus.completed = true
is_completed _ = false

pub record EnrollmentConversion : Type 0 where
  pub id : Uuid
  pub organization_id : Uuid
  pub application_id : Uuid
  pub status : EnrollmentConversionStatus
  pub requested_by : Uuid
  pub correlation_id : String
  pub requested_at : DateTime
  pub student_id : Uuid
  pub academic_enrollment_id : Uuid
  pub completed_at : Option DateTime

unfoldable pub check_conversion : EnrollmentConversion → Result EnrollmentConversion
check_conversion c = do
  raise_if (is_blank c.correlation_id || ltb 128 (text_length c.correlation_id)) admissions_rule
  require_aware admissions_rule c.requested_at
  require_aware_if_some c.completed_at
  raise_if (is_completed c.status && is_none c.completed_at) admissions_rule
  ok c

unfoldable pub transition_application :
    Application → ApplicationStatus → DateTime → Result Application
unfolding check_application
transition_application application target changed_at = do
  require_aware admissions_rule changed_at
  raise_if (not (may_become application.status target)) application_transition
  check_application (record application { status = target; status_changed_at = changed_at })
