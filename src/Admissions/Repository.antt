-- ===== src/Admissions/Repository.antt =====
-- `InMemoryAdmissionsRepository` of backend/src/admissions/infrastructure/repository.py. Each method
-- runs under one lock, so it is one step from a state to the next; one that raises has not yet
-- written. `casefold` is `str.casefold`, whose table is Unicode's.
pub mod Seats
pub mod Quotas
pub mod Conversions
pub mod Capacity
pub mod Keyed
pub mod Writes
use onwlms.Prelude.{
  Bool, List, Option, String, [], filter, is_some, leb, nat_eq, none, not, page, pair_eq, some,
  sort, string_eq, true, ℕ, ◌&&◌, ◌==◌, ◌||◌,
}
use onwlms.Prelude.Dict.{Dict, has_key, insert, lookup, values}
use onwlms.Core.{Result, Uuid, application_transition, conflict, ok, raise_if, ◌>>=◌, ◌>>◌}
use onwlms.Core.Time.{DateTime, before, not_after, same_time}
use onwlms.Admissions.Models.{
  AdmissionQuota, AdmissionsPolicy, ApplicantProfile, Application, ApplicationDocument,
  ReviewRecord,
}
use onwlms.Admissions.Reservation.{AdmissionDecision, EnrollmentConversion, SeatReservation}
use onwlms.Admissions.Status.{ApplicationStatus, reservation_eq, stage_eq, status_eq}

abbrev pub TenantKey : Type 0
TenantKey = Uuid × Uuid

abbrev pub TargetKey : Type 0
TargetKey = Uuid × (Uuid × Uuid)

abbrev pub CategoryKey : Type 0
CategoryKey = Uuid × (Uuid × (Uuid × String))

pub record Repository : Type 0 where
  pub profiles : Dict TenantKey ApplicantProfile
  pub applications : Dict TenantKey Application
  pub documents : Dict TenantKey ApplicationDocument
  pub policies : Dict TargetKey AdmissionsPolicy
  pub quotas : Dict TenantKey AdmissionQuota
  pub quota_index : Dict CategoryKey Uuid
  pub reviews : Dict TenantKey ReviewRecord
  pub decisions : Dict TenantKey AdmissionDecision
  pub reservations : Dict TenantKey SeatReservation
  pub application_reservations : Dict TenantKey Uuid
  pub conversions : Dict TenantKey EnrollmentConversion

abbrev pub empty : Repository
empty = record {
  profiles = [];
  applications = [];
  documents = [];
  policies = [];
  quotas = [];
  quota_index = [];
  reviews = [];
  decisions = [];
  reservations = [];
  application_reservations = [];
  conversions = [];
}

unfoldable pub save_applicant_profile : ApplicantProfile → Repository → Repository
save_applicant_profile profile r = record r {
  profiles = insert (profile.organization_id, profile.id) profile r.profiles;
}

unfoldable pub create_application : ApplicantProfile → Application → Repository → Result Repository
create_application profile application r = do
  raise_if (not (profile.organization_id == application.organization_id)) conflict
  let profile_key : TenantKey = (profile.organization_id, profile.id)
  let application_key : TenantKey = (application.organization_id, application.id)
  raise_if (has_key profile_key r.profiles || has_key application_key r.applications) conflict
  ok (record r {
    profiles = insert profile_key profile r.profiles;
    applications = insert application_key application r.applications;
  })

unfoldable pub get_applicant_profile : Uuid → Uuid → Repository → Option ApplicantProfile
get_applicant_profile organization_id profile_id r = lookup (organization_id, profile_id) r.profiles

unfoldable pub get_application : Uuid → Uuid → Repository → Option Application
get_application organization_id application_id r =
    lookup (organization_id, application_id) r.applications

-- `existing is None or existing.status is not expected_status`
abbrev pub has_moved : Option Application → ApplicationStatus → Bool
has_moved none expected = true
has_moved (some a) expected = not (a.status == expected)

-- The test of `save_application` on what is stored.
abbrev save_guard : Option ApplicationStatus → Option Application → Result (Unit {0})
save_guard none existing = raise_if (is_some existing) conflict
save_guard (some expected) existing = raise_if (has_moved existing expected) application_transition

unfoldable pub save_application :
    Application → Option ApplicationStatus → Repository → Result Repository
save_application application expected r = do
  let key : TenantKey = (application.organization_id, application.id)
  save_guard expected (lookup key r.applications)
  ok (record r { applications = insert key application r.applications })

-- `value is None or test`
abbrev pub unless_given {ℓ} : {A : Type ℓ} → Option A → (A → Bool) → Bool
unless_given none test = true
unless_given (some a) test = test a

-- `sorted(..., key=lambda value: (at, str(value.id)), reverse=True)`
abbrev pub newest_first : DateTime → Uuid → DateTime → Uuid → Bool
newest_first at id at' id' = before at' at || (same_time at at' && leb id' id)

unfoldable pub list_applications :
    Uuid
    → Option ApplicationStatus
    → Option Uuid
    → Option Uuid
    → ℕ
    → ℕ
    → Repository
    → List Application
list_applications organization_id status program_id intake_id limit offset r = page limit offset (
    sort (λ x y. newest_first x.created_at x.id y.created_at y.id)
      (filter
        (λ value.
          value.organization_id == organization_id
          && unless_given status (λ s. value.status == s)
          && unless_given program_id (λ p. value.program_id == p)
          && unless_given intake_id (λ i. value.intake_id == i))
        (values r.applications)))

unfoldable pub save_document : ApplicationDocument → Repository → Result Repository
save_document document r = do
  let key : TenantKey = (document.organization_id, document.id)
  raise_if (has_key key r.documents) conflict
  ok (record r { documents = insert key document r.documents })

unfoldable pub list_documents : Uuid → Uuid → ℕ → ℕ → Repository → List ApplicationDocument
list_documents organization_id application_id limit offset r = page limit offset (
    sort (λ x y. newest_first x.uploaded_at x.id y.uploaded_at y.id)
      (filter
        (λ value.
          value.organization_id == organization_id && value.application_id == application_id)
        (values r.documents)))

unfoldable pub save_policy : AdmissionsPolicy → Repository → Repository
save_policy policy r = record r {
  policies =
      insert (policy.organization_id, (policy.program_id, policy.intake_id)) policy r.policies;
}

unfoldable pub get_policy : Uuid → Uuid → Uuid → Repository → Option AdmissionsPolicy
get_policy organization_id program_id intake_id r =
    lookup (organization_id, (program_id, intake_id)) r.policies

unfoldable pub save_review :
    ReviewRecord → Application → ApplicationStatus → Repository → Result Repository
save_review review application expected r = do
  let application_key : TenantKey = (application.organization_id, application.id)
  raise_if (has_moved (lookup application_key r.applications) expected) application_transition
  let review_key : TenantKey = (review.organization_id, review.id)
  raise_if (has_key review_key r.reviews) conflict
  ok (record r {
    reviews = insert review_key review r.reviews;
    applications = insert application_key application r.applications;
  })

-- `sorted(reviews, key=lambda review: review.completed_at)`
unfoldable pub list_reviews : Uuid → Uuid → Repository → List ReviewRecord
list_reviews organization_id application_id r =
    sort (λ x y. not_after x.completed_at y.completed_at)
      (filter
        (λ value.
          value.organization_id == organization_id && value.application_id == application_id)
        (values r.reviews))

unfoldable pub list_reviews_page : Uuid → Uuid → ℕ → ℕ → Repository → List ReviewRecord
unfolding list_reviews
list_reviews_page organization_id application_id limit offset r =
    page limit offset (list_reviews organization_id application_id r)

unfoldable pub list_decisions : Uuid → Uuid → Repository → List AdmissionDecision
list_decisions organization_id application_id r =
    sort (λ x y. not_after x.decided_at y.decided_at)
      (filter
        (λ value.
          value.organization_id == organization_id && value.application_id == application_id)
        (values r.decisions))
