-- ===== src/Admissions/Repository/Seats.antt =====
-- The seats of a quota: the generator expression in `decide_with_reservation` of
-- backend/src/admissions/infrastructure/repository.py.
use onwlms.Prelude.{
  Bool, Option, count, false, nat_eq, none, not, pair_eq, some, string_eq, ℕ, ◌&&◌, ◌==◌, ◌||◌,
}
use onwlms.Prelude.Dict.{values}
use onwlms.Core.{Uuid}
use onwlms.Core.Time.{DateTime}
use onwlms.Admissions.Models.{AdmissionQuota}
use onwlms.Admissions.Repository.{Repository}
use onwlms.Admissions.Reservation.{SeatReservation, is_active_at}
use onwlms.Admissions.Status.{ReservationStatus, reservation_eq, stage_eq, status_eq}

-- Whether a reservation takes a seat of the quota at a time.
abbrev pub takes_seat : AdmissionQuota → DateTime → SeatReservation → Bool
takes_seat quota at s =
    s.organization_id == quota.organization_id
    && s.quota_id == quota.id
    && (s.status == ReservationStatus.consumed || is_active_at s at)

-- Whether the expression asks `is_active_at` of a reservation, which raises at a naive time.
abbrev pub is_timed : AdmissionQuota → SeatReservation → Bool
is_timed quota s =
    s.organization_id == quota.organization_id
    && s.quota_id == quota.id
    && not (s.status == ReservationStatus.consumed)

unfoldable pub occupied : AdmissionQuota → DateTime → Repository → ℕ
occupied quota at r = count (takes_seat quota at) (values r.reservations)

-- `existing_id is not None and existing_id != quota.id`
abbrev pub is_taken : Option Uuid → Uuid → Bool
is_taken none id = false
is_taken (some existing) id = not (existing == id)
