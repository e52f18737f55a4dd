-- ===== src/Admissions/Repository/Capacity.antt =====
-- The seats of a quota under the writes of the repository.
use onwlms.Prelude.{
  Bool, List, String, [], ap, arith, count, false, leb, nat_eq, pair_eq, some, string_eq, true, ◌+◌,
  ◌<◌, ◌∷◌, ◌≡◌, ◌≤◌, ◌⊎◌,
}
use onwlms.Prelude.Dict.{count-insert-le, count-insert_old, insert, lookup, to_ℕ, to_ℕ-le, values}
use onwlms.Core.{ok}
use onwlms.Core.Time.{DateTime}
use onwlms.Admissions.Models.{AdmissionQuota, Application}
use onwlms.Admissions.Repository.{Repository, has_moved}
use onwlms.Admissions.Repository.Conversions.{complete_conversion, consume, is_not_active}
use onwlms.Admissions.Repository.Quotas.{decide_with_reservation, quota_matches}
use onwlms.Admissions.Repository.Seats.{occupied, takes_seat}
use onwlms.Admissions.Reservation.{AdmissionDecision, EnrollmentConversion, SeatReservation}
use onwlms.Admissions.Status.{
  ApplicationStatus, ReservationStatus, reservation_eq, stage_eq, status_eq,
}

-- Time only frees seats.
seat_expires :
    (q : AdmissionQuota) (at later : DateTime) (s : SeatReservation)
    → at.instant ≤ later.instant
    → takes_seat q later s ≡ true
    → takes_seat q at s ≡ true
seat_expires q at later s le h = ground arith

count_mono :
    {A : Type 0} (p p' : A → Bool) (xs : List A)
    → ((x : A) → p x ≡ true → p' x ≡ true)
    → count p xs ≤ count p' xs
count_mono p p' [] h = omega arith
count_mono p p' (x ∷ xs) h = ground (arith, count_mono p p' xs h, h x)

pub occupied_antitone :
    (q : AdmissionQuota) (at later : DateTime) (r : Repository)
    → at.instant ≤ later.instant
    → occupied q later r ≤ occupied q at r
unfolding occupied
occupied_antitone q at later r le =
    count_mono (takes_seat q later) (takes_seat q at) (values r.reservations)
      (λ s h. seat_expires q at later s le h)

module _ (casefold : String → String) where
  -- What holds when `decide_with_reservation` goes through, and what it has written.
  pub decide-eq-ok :
      (a : Application) (s : ApplicationStatus) (d : AdmissionDecision) (q : AdmissionQuota)
      (v : SeatReservation) (at : DateTime) (r r' : Repository)
      → decide_with_reservation casefold a s d q v at r ≡ ok r'
      → (has_moved (lookup (a.organization_id, a.id) r.applications) s ≡ false)
        × (quota_matches casefold q a ≡ true)
        × (occupied q at r < q.capacity)
        × (r' ≡ record r {
          applications = insert (a.organization_id, a.id) a r.applications;
          reservations = insert (v.organization_id, v.id) v r.reservations;
          application_reservations =
              insert (a.organization_id, a.id) v.id r.application_reservations;
          decisions = insert (d.organization_id, d.id) d r.decisions;
        })
  unfolding decide_with_reservation
  decide-eq-ok a s d q v at r r' h = ground arith

  -- An acceptance that goes through leaves no more seats taken than the quota has, at the time of
  -- the decision and at every later time.
  pub decide-within_capacity :
      (a : Application) (s : ApplicationStatus) (d : AdmissionDecision) (q : AdmissionQuota)
      (v : SeatReservation) (at later : DateTime) (r r' : Repository)
      → decide_with_reservation casefold a s d q v at r ≡ ok r'
      → at.instant ≤ later.instant
      → occupied q later r' ≤ q.capacity
  unfolding occupied
  decide-within_capacity a s d q v at later r r' h le =
      let (_, _, room, written) = decide-eq-ok a s d q v at r r' h in
      omega (
        arith,
        occupied_antitone q at later r' le,
        ap (occupied q at) written,
        count-insert-le (takes_seat q at) (v.organization_id, v.id) v r.reservations,
        to_ℕ-le (takes_seat q at v),
      )

-- Completing a conversion turns the stored reservation into a consumed one.
pub consume-eq-ok :
    (c : EnrollmentConversion) (a : Application) (v : SeatReservation) (r r' : Repository)
    → consume c a v r ≡ ok r'
    → (has_moved (lookup (a.organization_id, a.id) r.applications) ApplicationStatus.accepted
        ≡ false)
      × (is_not_active (lookup (v.organization_id, v.id) r.reservations) ≡ false)
      × (r' ≡ record r {
        conversions = insert (c.organization_id, c.application_id) c r.conversions;
        applications = insert (a.organization_id, a.id) a r.applications;
        reservations = insert (v.organization_id, v.id) v r.reservations;
      })
unfolding consume
consume-eq-ok c a v r r' h = ground arith

pub complete-eq-ok :
    (c : EnrollmentConversion) (a : Application) (v : SeatReservation) (r r' : Repository)
    → complete_conversion c a v r ≡ ok r'
    → (r' ≡ r) ⊎ (consume c a v r ≡ ok r')
unfolding complete_conversion
complete-eq-ok c a v r r' h = ground arith

-- Completing a pending conversion of a seat of the quota: at every time the seats taken are those
-- from before, and one more if the stored reservation had expired by then.
pub complete-occupied :
    (c : EnrollmentConversion) (a : Application) (v old : SeatReservation) (q : AdmissionQuota)
    (at : DateTime) (r r' : Repository)
    → consume c a v r ≡ ok r'
    → lookup (v.organization_id, v.id) r.reservations ≡ some old
    → v ≡ record old { status = ReservationStatus.consumed; consumed_at = v.consumed_at }
    → old.organization_id ≡ q.organization_id
    → old.quota_id ≡ q.id
    → occupied q at r' ≡ occupied q at r + to_ℕ (leb old.expires_at.instant at.instant)
unfolding occupied
complete-occupied c a v old q at r r' h stored same org quota =
    let (_, active, written) = consume-eq-ok c a v r r' h in
    ground (
      arith,
      ap (occupied q at) written,
      count-insert_old (takes_seat q at) (v.organization_id, v.id) v old r.reservations stored,
    )
