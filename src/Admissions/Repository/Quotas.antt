-- ===== src/Admissions/Repository/Quotas.antt =====
-- The methods of `InMemoryAdmissionsRepository` on quotas, decisions and seat reservations.
use onwlms.Prelude.{
  Bool, Option, String, any, leb, nat_eq, none, not, pair_eq, some, string_eq, ◌&&◌, ◌==◌,
}
use onwlms.Prelude.Dict.{insert, lookup, values}
use onwlms.Core.{
  Result, Uuid, admissions_rule, application_transition, conflict, ok, quota_unavailable, raise_if,
  ◌>>◌,
}
use onwlms.Core.Time.{DateTime, is_naive}
use onwlms.Admissions.Models.{AdmissionQuota, Application}
use onwlms.Admissions.Repository.{CategoryKey, Repository, TenantKey, has_moved}
use onwlms.Admissions.Repository.Seats.{is_taken, is_timed, occupied}
use onwlms.Admissions.Reservation.{AdmissionDecision, SeatReservation}
use onwlms.Admissions.Status.{ApplicationStatus, reservation_eq, stage_eq, status_eq}

module _ (casefold : String → String) where
  unfoldable pub save_quota : AdmissionQuota → Repository → Result Repository
  save_quota quota r = do
    let key : CategoryKey =
        (quota.organization_id, (quota.program_id, (quota.intake_id, casefold quota.seat_category)))
    raise_if (is_taken (lookup key r.quota_index) quota.id) conflict
    ok (record r {
      quotas = insert (quota.organization_id, quota.id) quota r.quotas;
      quota_index = insert key quota.id r.quota_index;
    })

  unfoldable pub get_quota : Uuid → Uuid → Uuid → String → Repository → Option AdmissionQuota
  get_quota organization_id program_id intake_id seat_category r =
      elim (lookup (organization_id, (program_id, (intake_id, casefold seat_category)))
        r.quota_index) [ none ↦ none | some quota_id ↦ lookup (organization_id, quota_id) r.quotas ]

  -- Whether the quota is that of the application's target and category.
  abbrev pub quota_matches : AdmissionQuota → Application → Bool
  quota_matches quota application =
      quota.organization_id == application.organization_id
      && quota.program_id == application.program_id
      && quota.intake_id == application.intake_id
      && casefold quota.seat_category == casefold application.seat_category

  unfoldable pub decide_with_reservation :
      Application
      → ApplicationStatus
      → AdmissionDecision
      → AdmissionQuota
      → SeatReservation
      → DateTime
      → Repository
      → Result Repository
  decide_with_reservation application expected decision quota reservation evaluated_at r = do
    let application_key : TenantKey = (application.organization_id, application.id)
    raise_if (has_moved (lookup application_key r.applications) expected) application_transition
    raise_if (not (quota_matches quota application)) quota_unavailable
    raise_if (is_naive evaluated_at && any (is_timed quota) (values r.reservations)) admissions_rule
    raise_if (leb quota.capacity (occupied quota evaluated_at r)) quota_unavailable
    ok (record r {
      applications = insert application_key application r.applications;
      reservations =
          insert (reservation.organization_id, reservation.id) reservation r.reservations;
      application_reservations = insert application_key reservation.id r.application_reservations;
      decisions = insert (decision.organization_id, decision.id) decision r.decisions;
    })

unfoldable pub save_decision :
    Application → ApplicationStatus → AdmissionDecision → Repository → Result Repository
save_decision application expected decision r = do
  let key : TenantKey = (application.organization_id, application.id)
  raise_if (has_moved (lookup key r.applications) expected) application_transition
  ok (record r {
    applications = insert key application r.applications;
    decisions = insert (decision.organization_id, decision.id) decision r.decisions;
  })

unfoldable pub get_reservation_for_application : Uuid → Uuid → Repository → Option SeatReservation
get_reservation_for_application organization_id application_id r =
    elim (lookup (organization_id, application_id) r.application_reservations) [
      | none ↦ none
      | some reservation_id ↦ lookup (organization_id, reservation_id) r.reservations
    ]
