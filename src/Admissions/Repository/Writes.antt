-- ===== src/Admissions/Repository/Writes.antt =====
-- Every write of the repository, and that it keeps the dictionaries keyed.
use onwlms.Prelude.{Option, String, arith, inl, inr, nat_eq, pair_eq, string_eq, ◌≡◌, ◌⊎◌}
use onwlms.Prelude.Dict.{insert}
use onwlms.Core.{ok}
use onwlms.Core.Time.{DateTime}
use onwlms.Admissions.Models.{
  AdmissionQuota, AdmissionsPolicy, ApplicantProfile, Application, ApplicationDocument,
  ReviewRecord,
}
use onwlms.Admissions.Repository.{
  Repository, create_application, save_applicant_profile, save_application, save_document,
  save_policy, save_review,
}
use onwlms.Admissions.Repository.Capacity.{complete-eq-ok, consume-eq-ok, decide-eq-ok}
use onwlms.Admissions.Repository.Conversions.{begin_conversion, complete_conversion}
use onwlms.Admissions.Repository.Keyed.{
  WellKeyed, put_application_reservations, put_applications, put_conversions, put_decisions,
  put_documents, put_policies, put_profiles, put_quota_index, put_quotas, put_reservations,
  put_reviews,
}
use onwlms.Admissions.Repository.Quotas.{decide_with_reservation, save_decision, save_quota}
use onwlms.Admissions.Reservation.{AdmissionDecision, EnrollmentConversion, SeatReservation}
use onwlms.Admissions.Status.{ApplicationStatus, reservation_eq, stage_eq, status_eq}

-- A write of the repository, by what it is: the methods that may raise, and those that do not.
pub data Writes (casefold : String → String) (r r' : Repository) : Type 0 where
  saved_profile : (p : ApplicantProfile) → r' ≡ save_applicant_profile p r → Writes casefold r r'
  created :
      (p : ApplicantProfile) (a : Application)
      → create_application p a r ≡ ok r'
      → Writes casefold r r'
  saved_application :
      (a : Application) (s : Option ApplicationStatus)
      → save_application a s r ≡ ok r'
      → Writes casefold r r'
  saved_document : (d : ApplicationDocument) → save_document d r ≡ ok r' → Writes casefold r r'
  saved_policy : (p : AdmissionsPolicy) → r' ≡ save_policy p r → Writes casefold r r'
  saved_quota : (q : AdmissionQuota) → save_quota casefold q r ≡ ok r' → Writes casefold r r'
  saved_review :
      (v : ReviewRecord) (a : Application) (s : ApplicationStatus)
      → save_review v a s r ≡ ok r'
      → Writes casefold r r'
  reserved :
      (a : Application) (s : ApplicationStatus) (d : AdmissionDecision) (q : AdmissionQuota)
      (v : SeatReservation) (at : DateTime)
      → decide_with_reservation casefold a s d q v at r ≡ ok r'
      → Writes casefold r r'
  saved_decision :
      (a : Application) (s : ApplicationStatus) (d : AdmissionDecision)
      → save_decision a s d r ≡ ok r'
      → Writes casefold r r'
  began : (c : EnrollmentConversion) → r' ≡ (begin_conversion c r).1 → Writes casefold r r'
  completed :
      (c : EnrollmentConversion) (a : Application) (v : SeatReservation)
      → complete_conversion c a v r ≡ ok r'
      → Writes casefold r r'

-- `begin_conversion` leaves the repository or stores the conversion.
begin-cases :
    (c : EnrollmentConversion) (r : Repository)
    → ((begin_conversion c r).1 ≡ r)
      ⊎ ((begin_conversion c r).1
          ≡ record r { conversions = insert (c.organization_id, c.application_id) c r.conversions })
unfolding begin_conversion
begin-cases c r = ground arith

-- Every writing method of the repository keeps each profile, application, document, policy, quota,
-- review, decision, reservation and conversion under the key that is made of its own fields.
pub Writes-WellKeyed :
    (casefold : String → String) {r r' : Repository}
    → Writes casefold r r'
    → WellKeyed r
    → WellKeyed r'
unfolding save_applicant_profile create_application save_application save_document save_policy
    save_quota save_review save_decision
Writes-WellKeyed casefold {r} {r'} (saved_profile p e) k = rw e (put_profiles k p)
Writes-WellKeyed casefold {r} {r'} (created p a e) k =
    let written : r' ≡ record r {
      profiles = insert (p.organization_id, p.id) p r.profiles;
      applications = insert (a.organization_id, a.id) a r.applications;
    } =
      ground arith in
    rw written (put_applications (put_profiles k p) a)
Writes-WellKeyed casefold {r} {r'} (saved_application a s e) k =
    let written : r'
        ≡ record r { applications = insert (a.organization_id, a.id) a r.applications } =
      ground arith in
    rw written (put_applications k a)
Writes-WellKeyed casefold {r} {r'} (saved_document d e) k =
    let written : r' ≡ record r { documents = insert (d.organization_id, d.id) d r.documents } =
      ground arith in
    rw written (put_documents k d)
Writes-WellKeyed casefold {r} {r'} (saved_policy p e) k = rw e (put_policies k p)
Writes-WellKeyed casefold {r} {r'} (saved_quota q e) k =
    let written : r' ≡ record r {
      quotas = insert (q.organization_id, q.id) q r.quotas;
      quota_index =
          insert (q.organization_id, (q.program_id, (q.intake_id, casefold q.seat_category))) q.id
            r.quota_index;
    } =
      ground arith in
    rw written (put_quota_index (put_quotas k q) _)
Writes-WellKeyed casefold {r} {r'} (saved_review v a s e) k =
    let written : r' ≡ record r {
      reviews = insert (v.organization_id, v.id) v r.reviews;
      applications = insert (a.organization_id, a.id) a r.applications;
    } =
      ground arith in
    rw written (put_applications (put_reviews k v) a)
Writes-WellKeyed casefold {r} {r'} (reserved a s d q v at e) k =
    rw (decide-eq-ok casefold a s d q v at r r' e).3
      (put_decisions (put_application_reservations (put_reservations (put_applications k a) v) _) d)
Writes-WellKeyed casefold {r} {r'} (saved_decision a s d e) k =
    let written : r' ≡ record r {
      applications = insert (a.organization_id, a.id) a r.applications;
      decisions = insert (d.organization_id, d.id) d r.decisions;
    } =
      ground arith in
    rw written (put_decisions (put_applications k a) d)
Writes-WellKeyed casefold {r} {r'} (began c e) k = elim (begin-cases c r) [
  | inl old ↦ rw (e, old) k
  | inr new ↦ rw (e, new) (put_conversions k c)
]
Writes-WellKeyed casefold {r} {r'} (completed c a v e) k = elim (complete-eq-ok c a v r r' e) [
  | inl old ↦ rw old k
  | inr done ↦
      rw (consume-eq-ok c a v r r' done).2
        (put_reservations (put_applications (put_conversions k c) a) v)
]
