-- ===== src/Admissions/Service/Intake.antt =====
-- Creating, submitting and reviewing applications: backend/src/admissions/application/service.py.
use onwlms.Prelude.{
  Bool, Option, String, [], contains, false, if◌then◌else◌, nat_eq, none, not, pair_eq, some,
  string_eq, true, ◌==◌, ◌∷◌,
}
use onwlms.Core.{Result, TenantActorContext, Uuid, admissions_rule, not_found, ok, or_raise}
use onwlms.Core.Exec.{gets, lift, pure, require, ◌>>=◌, ◌>>◌}
use onwlms.Core.Time.{DateTime, shift}
use onwlms.Admissions.Models.{
  AdmissionsPolicy, ApplicantProfile, Application, ApplicationDocument, DepositRequirement,
  ReviewRecord, check_application, check_deposit, check_review,
}
use onwlms.Admissions.Repository.{
  create_application, get_policy, save_application, save_document, save_review,
}
use onwlms.Admissions.Reservation.{transition_application}
use onwlms.Admissions.Service.{
  Action, Ports, admissions_application_create, admissions_application_submit,
  admissions_document_manage, admissions_review, authorize, commit, require_application,
  require_policy, require_tenant,
}
use onwlms.Admissions.Status.{
  ApplicationSource, ApplicationStatus, DepositStatus, ReviewOutcome, ReviewStage, reservation_eq,
  stage_eq, status_eq,
}

-- `_deposit_requirement`
unfoldable pub deposit_requirement : AdmissionsPolicy → DateTime → Result DepositRequirement
unfolding check_deposit
deposit_requirement policy created_at =
    if not policy.deposit_required
    then check_deposit (record {
      required = false;
      amount = none;
      currency = none;
      due_at = none;
      external_reference = none;
      status = DepositStatus.not_required;
    })
    else check_deposit (record {
      required = true;
      amount = policy.deposit_amount;
      currency = policy.deposit_currency;
      due_at = some (shift created_at policy.reservation_duration);
      external_reference = none;
      status = DepositStatus.pending;
    })

unfoldable pub service_create_application :
    Ports
    → TenantActorContext
    → DateTime
    → Uuid
    → ApplicantProfile
    → Uuid
    → Uuid
    → String
    → ApplicationSource
    → Action Application
unfolding deposit_requirement check_application
service_create_application ports context now new_id profile program_id intake_id seat_category
      source =
    do
      authorize context admissions_application_create
      require_tenant context profile.organization_id
      require (ports.target_exists context.organization_id program_id intake_id) not_found
      found ← gets (λ w. get_policy context.organization_id program_id intake_id w.repository)
      policy ← lift (or_raise found not_found)
      deposit ← lift (deposit_requirement policy now)
      application ← lift (
          check_application (record {
            id = new_id;
            organization_id = context.organization_id;
            applicant_profile_id = profile.id;
            program_id = program_id;
            intake_id = intake_id;
            seat_category = seat_category;
            source = source;
            status = ApplicationStatus.draft;
            created_at = now;
            status_changed_at = now;
            deposit = deposit;
          }))
      commit (create_application profile application)
      pure application

unfoldable pub submit_application : TenantActorContext → DateTime → Uuid → Action Application
submit_application context now application_id = do
  authorize context admissions_application_submit
  application ← require_application context application_id
  submitted ← lift (transition_application application ApplicationStatus.submitted now)
  commit (save_application submitted (some application.status))
  pure submitted

-- The statuses in which `add_document` refuses.
abbrev pub is_final : ApplicationStatus → Bool
is_final s =
    contains s
      (ApplicationStatus.rejected ∷ ApplicationStatus.enrolled ∷ ApplicationStatus.withdrawn ∷ [])

unfoldable pub add_document : TenantActorContext → ApplicationDocument → Action (Unit {0})
add_document context document = do
  authorize context admissions_document_manage
  require_tenant context document.organization_id
  application ← require_application context document.application_id
  require (not (is_final application.status)) admissions_rule
  commit (save_document document)

-- The statuses in which `record_review` accepts a review.
abbrev pub is_open_for_review : ApplicationStatus → Bool
is_open_for_review s = contains s (
    ApplicationStatus.submitted ∷ ApplicationStatus.awaiting_exam
    ∷ ApplicationStatus.awaiting_interview ∷ ApplicationStatus.under_review ∷ [])

-- The application that `record_review` stores.
unfoldable pub reviewed : Application → DateTime → Result Application
reviewed application completed_at =
    if application.status == ApplicationStatus.under_review
    then ok application
    else transition_application application ApplicationStatus.under_review completed_at

unfoldable pub record_review :
    TenantActorContext
    → DateTime
    → Uuid
    → Uuid
    → ReviewStage
    → ReviewOutcome
    → Option String
    → Action ReviewRecord
unfolding reviewed check_review
record_review context now new_id application_id stage outcome explanation = do
  authorize context admissions_review
  application ← require_application context application_id
  require (is_open_for_review application.status) admissions_rule
  policy ← require_policy application
  require (contains stage policy.required_stages) admissions_rule
  review ← lift (
      check_review (record {
        id = new_id;
        organization_id = context.organization_id;
        application_id = application.id;
        stage = stage;
        outcome = outcome;
        reviewer_id = context.subject_id;
        completed_at = now;
        explanation = explanation;
      }))
  reviewed_application ← lift (reviewed application now)
  commit (save_review review reviewed_application application.status)
  pure review
