-- ===== src/Admissions/Service/Progress/Enroll.antt =====
-- The remaining methods of backend/src/admissions/application/service.py on stored applications.
use mathlib.Core.Path.{subst}
use onwlms.Prelude.{Option, String, arith, nat_eq, none, pair_eq, some, string_eq, true, ◌==◌, ◌≡◌}
use onwlms.Core.{Result, TenantActorContext, Uuid, ok}
use onwlms.Core.Exec.Relates.{Relates, Relates-pure}
use onwlms.Core.Time.{DateTime}
use onwlms.Admissions.Models.{
  AdmissionQuota, AdmissionsPolicy, ApplicantProfile, Application, ApplicationDocument,
  check_application,
}
use onwlms.Admissions.Repository.{Repository, create_application, save_document, save_policy}
use onwlms.Admissions.Repository.Conversions.{begin_conversion, complete_conversion}
use onwlms.Admissions.Repository.Quotas.{save_quota}
use onwlms.Admissions.Reservation.{EnrollmentConversion, SeatReservation, transition_application}
use onwlms.Admissions.Service.{AcceptedApplicantEnrollmentResult, Ports, commit}
use onwlms.Admissions.Service.Enroll.{
  EnrollmentInputs, begin, convert, enroll_accepted_application, enroll_with, finish_conversion,
  obtain_conversion, resume,
}
use onwlms.Admissions.Service.Intake.{add_document, service_create_application}
use onwlms.Admissions.Service.Progress.{Moves-refl, Progress, Progress-same, Steps, commit-Progress}
use onwlms.Admissions.Service.Progress.Methods.{progress_rules, transition-Steps}
use onwlms.Admissions.Service.Progress.Stores.{complete-Advances, create-Advances}
use onwlms.Admissions.Service.Reads.{configure_policy, configure_quota}
use onwlms.Admissions.Status.{
  ApplicationSource, ApplicationStatus, reservation_eq, stage_eq, status_eq,
}

untouched :
    (f : Repository → Result Repository)
    → ((r r' : Repository) → f r ≡ ok r' → r'.applications ≡ r.applications)
    → Relates Progress (commit f)
untouched f h = commit-Progress f (λ r r' e k. rw (h r r' e) (Moves-refl _))

complete-Progress :
    (c : EnrollmentConversion) (b : Application) (v : SeatReservation)
    → Steps ApplicationStatus.accepted b.status
    → Relates Progress (commit (complete_conversion c b v))
complete-Progress c b v h = commit-Progress _ (λ r r' e. complete-Advances c b v r r' h e)

accepted-Steps :
    (a b : Application) (t : ApplicationStatus) (at : DateTime)
    → (a.status == ApplicationStatus.accepted) ≡ true
    → transition_application a t at ≡ ok b
    → Steps ApplicationStatus.accepted b.status
accepted-Steps a b t at h e =
    subst (λ s. Steps s b.status) ((status_eq.beq_iff a.status ApplicationStatus.accepted).0 h)
      (transition-Steps a b t at e)

commit-create :
    (p : ApplicantProfile) (b : Application)
    → b.status ≡ ApplicationStatus.draft
    → Relates Progress (commit (create_application p b))
commit-create p b h = commit-Progress _ (λ r r' e. create-Advances p b r r' h e)

drafted :
    (a b : Application)
    → check_application a ≡ ok b
    → a.status ≡ ApplicationStatus.draft
    → b.status ≡ ApplicationStatus.draft
unfolding check_application
drafted a b e h = ground arith

save_policy-Progress :
    (p : AdmissionsPolicy) → Relates Progress (commit (λ r. ok (save_policy p r)))
unfolding save_policy
save_policy-Progress p = untouched (λ r. ok (save_policy p r)) (λ r r' e. ground arith)

save_quota-Progress :
    (casefold : String → String) (q : AdmissionQuota)
    → Relates Progress (commit (save_quota casefold q))
unfolding save_quota
save_quota-Progress casefold q = untouched _ (λ r r' e. ground arith)

save_document-Progress : (d : ApplicationDocument) → Relates Progress (commit (save_document d))
unfolding save_document
save_document-Progress d = untouched _ (λ r r' e. ground arith)

module _ (ports : Ports) (context : TenantActorContext) where
  begin-Progress : (c : EnrollmentConversion) → Relates Progress (begin c)
  unfolding begin_conversion
  begin-Progress c = record {
    at = λ w k.
        let e : (begin_conversion c w.repository).1.applications ≡ w.repository.applications =
          ground arith in
        rw e (Moves-refl _);
  }

  obtain-Progress :
      (inputs : EnrollmentInputs) (a : Application) (v : SeatReservation)
      (o : Option EnrollmentConversion)
      → Relates Progress (obtain_conversion ports context inputs a v o)
  unfolding obtain_conversion
  obtain-Progress inputs a v none = search (progress_rules, begin-Progress) depth 10
  obtain-Progress inputs a v (some c) = search progress_rules

  finish-Progress :
      (at : DateTime) (a : Application) (v : SeatReservation) (c : EnrollmentConversion)
      (x : AcceptedApplicantEnrollmentResult)
      → (a.status == ApplicationStatus.accepted) ≡ true
      → Relates Progress (finish_conversion at a v c x)
  unfolding finish_conversion
  finish-Progress at a v c x h = search (progress_rules, complete-Progress, accepted-Steps) depth 14

  enroll_with-Progress :
      (inputs : EnrollmentInputs) (a : Application) (v : SeatReservation) (c : EnrollmentConversion)
      → (a.status == ApplicationStatus.accepted) ≡ true
      → Relates Progress (enroll_with ports context inputs a v c)
  unfolding enroll_with
  enroll_with-Progress inputs a v c h = search (progress_rules, finish-Progress) depth 14

  convert-Progress :
      (inputs : EnrollmentInputs) (a : Application) (o : Option EnrollmentConversion)
      → Relates Progress (convert ports context inputs a o)
  unfolding convert
  convert-Progress inputs a o =
      search (progress_rules, obtain-Progress, enroll_with-Progress) depth 14

  resume-Progress :
      (inputs : EnrollmentInputs) (a : Application) (o c : Option EnrollmentConversion)
      → Relates Progress (resume ports context inputs a o c)
  unfolding resume
  resume-Progress inputs a o none = convert-Progress inputs a o
  resume-Progress inputs a o (some c) = Relates-pure Progress-same _

  pub enroll-Progress :
      (inputs : EnrollmentInputs) (id : Uuid)
      → Relates Progress (enroll_accepted_application ports context inputs id)
  unfolding enroll_accepted_application
  enroll-Progress inputs id = search (progress_rules, resume-Progress) depth 10

  pub create-Progress :
      (now : DateTime) (new_id : Uuid) (p : ApplicantProfile) (program_id intake_id : Uuid)
      (category : String) (source : ApplicationSource)
      → Relates Progress (
          service_create_application ports context now new_id p program_id intake_id category
            source)
  unfolding service_create_application
  create-Progress now new_id p program_id intake_id category source =
      search (progress_rules, commit-create, drafted) depth 14

  pub policy-Progress : (p : AdmissionsPolicy) → Relates Progress (configure_policy ports context p)
  unfolding configure_policy
  policy-Progress p = search (progress_rules, save_policy-Progress) depth 10

  pub quota-Progress : (q : AdmissionQuota) → Relates Progress (configure_quota ports context q)
  unfolding configure_quota
  quota-Progress q = search (progress_rules, save_quota-Progress) depth 10

  pub document-Progress : (d : ApplicationDocument) → Relates Progress (add_document context d)
  unfolding add_document
  document-Progress d = search (progress_rules, save_document-Progress) depth 10
