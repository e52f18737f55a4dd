-- ===== src/Admissions/Service/Progress/Stores.antt =====
-- The writes of backend/src/admissions/infrastructure/repository.py on stored applications.
use mathlib.Core.Bool.{false≢true}
use mathlib.Core.Path.{subst}
use onwlms.Prelude.{
  Bool-cases, Option, String, ap, arith, false, inl, inr, nat_eq, none, pair_beq_iff, pair_eq, some,
  string_eq, sym, true, ◌==◌, ◌∙◌, ◌≡◌,
}
use onwlms.Prelude.Dict.{Dict, insert, lookup, lookup-insert}
use onwlms.Core.{ok}
use onwlms.Core.Time.{DateTime}
use onwlms.Admissions.Lifecycle.{Lifecycle}
use onwlms.Admissions.Models.{AdmissionQuota, ApplicantProfile, Application, ReviewRecord}
use onwlms.Admissions.Repository.{
  Repository, TenantKey, create_application, has_moved, save_application, save_review,
}
use onwlms.Admissions.Repository.Capacity.{complete-eq-ok, consume-eq-ok, decide-eq-ok}
use onwlms.Admissions.Repository.Conversions.{complete_conversion}
use onwlms.Admissions.Repository.Quotas.{decide_with_reservation, save_decision}
use onwlms.Admissions.Reservation.{AdmissionDecision, EnrollmentConversion, SeatReservation}
use onwlms.Admissions.Service.Progress.{Advances, Moves, Moves-refl, Steps}
use onwlms.Admissions.Status.{ApplicationStatus, reservation_eq, stage_eq, status_eq}

overwrite-Moves :
    (b : Application) (s : ApplicationStatus) (o : Option Application)
    → has_moved o s ≡ false
    → Steps s b.status
    → Moves o (some b)
overwrite-Moves b s none stays steps = absurd (false≢true (sym stays))
overwrite-Moves b s (some a) stays steps =
    let same : (a.status == s) ≡ true = ground arith in
    subst (λ t. Steps t b.status) (sym ((status_eq.beq_iff a.status s).0 same)) steps

-- Storing an application over one whose status leads to its own.
insert-Moves :
    (b : Application) (k : TenantKey) (s : ApplicationStatus) (d : Dict TenantKey Application)
    → has_moved (lookup k d) s ≡ false
    → Steps s b.status
    → (j : TenantKey) → Moves (lookup j d) (lookup j (insert k b d))
insert-Moves b k s d stays steps j = elim (Bool-cases (k == j)) [
  | inl here ↦
      rw (lookup-insert k j b d, here)
        (overwrite-Moves b s (lookup j d)
          (subst (λ i. has_moved (lookup i d) s ≡ false) ((pair_beq_iff k j).0 here) stays) steps)
  | inr there ↦ rw (lookup-insert k j b d, there) (Moves-refl _)
]

insert_new-Moves :
    (b : Application) (k : TenantKey) (d : Dict TenantKey Application)
    → lookup k d ≡ none
    → b.status ≡ ApplicationStatus.draft
    → (j : TenantKey) → Moves (lookup j d) (lookup j (insert k b d))
insert_new-Moves b k d new draft j = elim (Bool-cases (k == j)) [
  | inl here ↦
      rw (lookup-insert k j b d, here)
        (subst (λ o. Moves o (some b))
          (sym (ap (λ i. lookup i d) (sym ((pair_beq_iff k j).0 here)) ∙ new))
          (subst (λ t. Steps ApplicationStatus.draft t) (sym draft) (0, Lifecycle.start)))
  | inr there ↦ rw (lookup-insert k j b d, there) (Moves-refl _)
]

-- The writes of the service, each of which the repository allows from the expected status only.
pub save_application-Advances :
    (b : Application) (s : ApplicationStatus) (r r' : Repository)
    → Steps s b.status
    → save_application b (some s) r ≡ ok r'
    → Advances r r'
unfolding save_application
save_application-Advances b s r r' steps e =
    let stays : has_moved (lookup (b.organization_id, b.id) r.applications) s ≡ false =
      ground arith in
    let written : r'
        ≡ record r { applications = insert (b.organization_id, b.id) b r.applications } =
      ground arith in
    rw written (insert-Moves b (b.organization_id, b.id) s r.applications stays steps)

pub save_review-Advances :
    (v : ReviewRecord) (b : Application) (s : ApplicationStatus) (r r' : Repository)
    → Steps s b.status
    → save_review v b s r ≡ ok r'
    → Advances r r'
unfolding save_review
save_review-Advances v b s r r' steps e =
    let stays : has_moved (lookup (b.organization_id, b.id) r.applications) s ≡ false =
      ground arith in
    let written : r' ≡ record r {
      reviews = insert (v.organization_id, v.id) v r.reviews;
      applications = insert (b.organization_id, b.id) b r.applications;
    } =
      ground arith in
    rw written (insert-Moves b (b.organization_id, b.id) s r.applications stays steps)

pub save_decision-Advances :
    (b : Application) (s : ApplicationStatus) (d : AdmissionDecision) (r r' : Repository)
    → Steps s b.status
    → save_decision b s d r ≡ ok r'
    → Advances r r'
unfolding save_decision
save_decision-Advances b s d r r' steps e =
    let stays : has_moved (lookup (b.organization_id, b.id) r.applications) s ≡ false =
      ground arith in
    let written : r' ≡ record r {
      applications = insert (b.organization_id, b.id) b r.applications;
      decisions = insert (d.organization_id, d.id) d r.decisions;
    } =
      ground arith in
    rw written (insert-Moves b (b.organization_id, b.id) s r.applications stays steps)

pub decide-Advances :
    (casefold : String → String) (b : Application) (s : ApplicationStatus) (d : AdmissionDecision)
    (q : AdmissionQuota) (v : SeatReservation) (at : DateTime) (r r' : Repository)
    → Steps s b.status
    → decide_with_reservation casefold b s d q v at r ≡ ok r'
    → Advances r r'
decide-Advances casefold b s d q v at r r' steps e =
    let (stays, _, _, written) = decide-eq-ok casefold b s d q v at r r' e in
    rw written (insert-Moves b (b.organization_id, b.id) s r.applications stays steps)

pub complete-Advances :
    (c : EnrollmentConversion) (b : Application) (v : SeatReservation) (r r' : Repository)
    → Steps ApplicationStatus.accepted b.status
    → complete_conversion c b v r ≡ ok r'
    → Advances r r'
complete-Advances c b v r r' steps e = elim (complete-eq-ok c b v r r' e) [
  | inl old ↦ rw old (λ k. Moves-refl _)
  | inr done ↦
      let (stays, _, written) = consume-eq-ok c b v r r' done in
      rw written (
        insert-Moves b (b.organization_id, b.id) ApplicationStatus.accepted r.applications stays
          steps)
]

pub create-Advances :
    (p : ApplicantProfile) (b : Application) (r r' : Repository)
    → b.status ≡ ApplicationStatus.draft
    → create_application p b r ≡ ok r'
    → Advances r r'
unfolding create_application
create-Advances p b r r' draft e =
    let new : lookup (b.organization_id, b.id) r.applications ≡ none = ground arith in
    let written : r' ≡ record r {
      profiles = insert (p.organization_id, p.id) p r.profiles;
      applications = insert (b.organization_id, b.id) b r.applications;
    } =
      ground arith in
    rw written (insert_new-Moves b (b.organization_id, b.id) r.applications new draft)
