-- ===== src/Admissions/Repository/Keyed.antt =====
-- What the repository keeps under a key belongs to it.
use onwlms.Prelude.{Eq, arith, nat_eq, pair_eq, some, string_eq, ◌≡◌}
use onwlms.Prelude.Dict.{Dict, insert, lookup, lookup-insert}
use onwlms.Core.{Uuid}
use onwlms.Admissions.Models.{
  AdmissionQuota, AdmissionsPolicy, ApplicantProfile, Application, ApplicationDocument,
  ReviewRecord,
}
use onwlms.Admissions.Repository.{CategoryKey, Repository, TenantKey}
use onwlms.Admissions.Reservation.{AdmissionDecision, EnrollmentConversion, SeatReservation}

module _ {K V : Type 0} ⦃e : Eq K⦄ (key : V → K) where
  -- Every value stands under the key that is made of its own fields.
  abbrev pub Keyed : Dict K V → Type 0
  Keyed d = (k : K) (v : V) → lookup k d ≡ some v → k ≡ key v

  Keyed-insert : (v : V) (d : Dict K V) → Keyed d → Keyed (insert (key v) v d)
  Keyed-insert v d h k u stored =
      ground (arith, lookup-insert (key v) k v d, h k u, e.beq_iff (key v) k)

pub record WellKeyed (r : Repository) : Type 0 where
  pub profiles : Keyed (λ v. (v.organization_id, v.id)) r.profiles
  pub applications : Keyed (λ v. (v.organization_id, v.id)) r.applications
  pub documents : Keyed (λ v. (v.organization_id, v.id)) r.documents
  pub policies : Keyed (λ v. (v.organization_id, (v.program_id, v.intake_id))) r.policies
  pub quotas : Keyed (λ v. (v.organization_id, v.id)) r.quotas
  pub reviews : Keyed (λ v. (v.organization_id, v.id)) r.reviews
  pub decisions : Keyed (λ v. (v.organization_id, v.id)) r.decisions
  pub reservations : Keyed (λ v. (v.organization_id, v.id)) r.reservations
  pub conversions : Keyed (λ v. (v.organization_id, v.application_id)) r.conversions

-- One dictionary is written, the others stay.
module _ {r : Repository} (k : WellKeyed r) where
  pub put_profiles :
      (v : ApplicantProfile)
      → WellKeyed (record r { profiles = insert (v.organization_id, v.id) v r.profiles })
  put_profiles v = record {
    profiles =
        Keyed-insert (λ (u : ApplicantProfile). (u.organization_id, u.id)) v r.profiles k.profiles;
    applications = k.applications;
    documents = k.documents;
    policies = k.policies;
    quotas = k.quotas;
    reviews = k.reviews;
    decisions = k.decisions;
    reservations = k.reservations;
    conversions = k.conversions;
  }

  pub put_applications :
      (v : Application)
      → WellKeyed (record r { applications = insert (v.organization_id, v.id) v r.applications })
  put_applications v = record {
    profiles = k.profiles;
    applications =
        Keyed-insert (λ (u : Application). (u.organization_id, u.id)) v r.applications
          k.applications;
    documents = k.documents;
    policies = k.policies;
    quotas = k.quotas;
    reviews = k.reviews;
    decisions = k.decisions;
    reservations = k.reservations;
    conversions = k.conversions;
  }

  pub put_documents :
      (v : ApplicationDocument)
      → WellKeyed (record r { documents = insert (v.organization_id, v.id) v r.documents })
  put_documents v = record {
    profiles = k.profiles;
    applications = k.applications;
    documents =
        Keyed-insert (λ (u : ApplicationDocument). (u.organization_id, u.id)) v r.documents
          k.documents;
    policies = k.policies;
    quotas = k.quotas;
    reviews = k.reviews;
    decisions = k.decisions;
    reservations = k.reservations;
    conversions = k.conversions;
  }

  pub put_quotas :
      (v : AdmissionQuota)
      → WellKeyed (record r { quotas = insert (v.organization_id, v.id) v r.quotas })
  put_quotas v = record {
    profiles = k.profiles;
    applications = k.applications;
    documents = k.documents;
    policies = k.policies;
    quotas = Keyed-insert (λ (u : AdmissionQuota). (u.organization_id, u.id)) v r.quotas k.quotas;
    reviews = k.reviews;
    decisions = k.decisions;
    reservations = k.reservations;
    conversions = k.conversions;
  }

  pub put_reviews :
      (v : ReviewRecord)
      → WellKeyed (record r { reviews = insert (v.organization_id, v.id) v r.reviews })
  put_reviews v = record {
    profiles = k.profiles;
    applications = k.applications;
    documents = k.documents;
    policies = k.policies;
    quotas = k.quotas;
    reviews = Keyed-insert (λ (u : ReviewRecord). (u.organization_id, u.id)) v r.reviews k.reviews;
    decisions = k.decisions;
    reservations = k.reservations;
    conversions = k.conversions;
  }

  pub put_decisions :
      (v : AdmissionDecision)
      → WellKeyed (record r { decisions = insert (v.organization_id, v.id) v r.decisions })
  put_decisions v = record {
    profiles = k.profiles;
    applications = k.applications;
    documents = k.documents;
    policies = k.policies;
    quotas = k.quotas;
    reviews = k.reviews;
    decisions =
        Keyed-insert (λ (u : AdmissionDecision). (u.organization_id, u.id)) v r.decisions
          k.decisions;
    reservations = k.reservations;
    conversions = k.conversions;
  }

  pub put_reservations :
      (v : SeatReservation)
      → WellKeyed (record r { reservations = insert (v.organization_id, v.id) v r.reservations })
  put_reservations v = record {
    profiles = k.profiles;
    applications = k.applications;
    documents = k.documents;
    policies = k.policies;
    quotas = k.quotas;
    reviews = k.reviews;
    decisions = k.decisions;
    reservations =
        Keyed-insert (λ (u : SeatReservation). (u.organization_id, u.id)) v r.reservations
          k.reservations;
    conversions = k.conversions;
  }

  pub put_conversions :
      (v : EnrollmentConversion)
      → WellKeyed
          (record r { conversions = insert (v.organization_id, v.application_id) v r.conversions })
  put_conversions v = record {
    profiles = k.profiles;
    applications = k.applications;
    documents = k.documents;
    policies = k.policies;
    quotas = k.quotas;
    reviews = k.reviews;
    decisions = k.decisions;
    reservations = k.reservations;
    conversions =
        Keyed-insert (λ (u : EnrollmentConversion). (u.organization_id, u.application_id)) v
          r.conversions k.conversions;
  }

  pub put_policies :
      (v : AdmissionsPolicy)
      → WellKeyed (record r {
        policies = insert (v.organization_id, (v.program_id, v.intake_id)) v r.policies;
      })
  put_policies v = record {
    profiles = k.profiles;
    applications = k.applications;
    documents = k.documents;
    policies =
        Keyed-insert (λ (u : AdmissionsPolicy). (u.organization_id, (u.program_id, u.intake_id))) v
          r.policies k.policies;
    quotas = k.quotas;
    reviews = k.reviews;
    decisions = k.decisions;
    reservations = k.reservations;
    conversions = k.conversions;
  }

  pub put_quota_index : (d : Dict CategoryKey Uuid) → WellKeyed (record r { quota_index = d })
  put_quota_index d = record {
    profiles = k.profiles;
    applications = k.applications;
    documents = k.documents;
    policies = k.policies;
    quotas = k.quotas;
    reviews = k.reviews;
    decisions = k.decisions;
    reservations = k.reservations;
    conversions = k.conversions;
  }

  pub put_application_reservations :
      (d : Dict TenantKey Uuid) → WellKeyed (record r { application_reservations = d })
  put_application_reservations d = record {
    profiles = k.profiles;
    applications = k.applications;
    documents = k.documents;
    policies = k.policies;
    quotas = k.quotas;
    reviews = k.reviews;
    decisions = k.decisions;
    reservations = k.reservations;
    conversions = k.conversions;
  }
