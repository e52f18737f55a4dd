-- ===== src/Admissions/Service/Reads.antt =====
-- The reads and the configuration of backend/src/admissions/application/service.py.
use onwlms.Prelude.{List, Option, String, nat_eq, pair_eq, string_eq}
use onwlms.Prelude.Int.{pos_part, ℤ}
use onwlms.Core.{TenantActorContext, Uuid, not_found, ok, or_raise}
use onwlms.Core.Exec.{gets, lift, require, ◌>>=◌, ◌>>◌}
use onwlms.Admissions.Models.{
  AdmissionQuota, AdmissionsPolicy, Application, ApplicationDocument, ReviewRecord,
}
use onwlms.Admissions.Repository.{
  get_policy, list_applications, list_documents, list_reviews_page, save_policy,
}
use onwlms.Admissions.Repository.Quotas.{get_quota, save_quota}
use onwlms.Admissions.Service.{
  Action, Ports, admissions_document_manage, admissions_policy_manage, admissions_review, authorize,
  commit, require_application, require_tenant, validate_page,
}
use onwlms.Admissions.Status.{ApplicationStatus, reservation_eq, stage_eq, status_eq}

module _ (ports : Ports) (context : TenantActorContext) where
  require_target : Uuid → Uuid → Action (Unit {0})
  require_target program_id intake_id =
      require (ports.target_exists context.organization_id program_id intake_id) not_found

  unfoldable pub configure_policy : AdmissionsPolicy → Action (Unit {0})
  unfolding require_target
  configure_policy policy = do
    authorize context admissions_policy_manage
    require_tenant context policy.organization_id
    require_target policy.program_id policy.intake_id
    commit (λ r. ok (save_policy policy r))

  unfoldable pub configure_quota : AdmissionQuota → Action (Unit {0})
  unfolding require_target
  configure_quota quota = do
    authorize context admissions_policy_manage
    require_tenant context quota.organization_id
    require_target quota.program_id quota.intake_id
    commit (save_quota ports.casefold quota)

  unfoldable pub service_get_quota : Uuid → Uuid → String → Action AdmissionQuota
  service_get_quota program_id intake_id seat_category = do
    authorize context admissions_policy_manage
    found ← gets (λ w.
        get_quota ports.casefold context.organization_id program_id intake_id seat_category
          w.repository)
    lift (or_raise found not_found)

module _ (context : TenantActorContext) where
  unfoldable pub service_get_application : Uuid → Action Application
  service_get_application application_id = do
    authorize context admissions_review
    require_application context application_id

  unfoldable pub service_list_applications :
      Option ApplicationStatus → Option Uuid → Option Uuid → ℤ → ℤ → Action (List Application)
  service_list_applications status program_id intake_id limit offset = do
    authorize context admissions_review
    validate_page limit offset
    gets (λ w.
        list_applications context.organization_id status program_id intake_id (pos_part limit)
          (pos_part offset) w.repository)

  unfoldable pub service_list_documents : Uuid → ℤ → ℤ → Action (List ApplicationDocument)
  service_list_documents application_id limit offset = do
    authorize context admissions_document_manage
    validate_page limit offset
    require_application context application_id
    gets (λ w.
        list_documents context.organization_id application_id (pos_part limit) (pos_part offset)
          w.repository)

  unfoldable pub service_list_reviews : Uuid → ℤ → ℤ → Action (List ReviewRecord)
  service_list_reviews application_id limit offset = do
    authorize context admissions_review
    validate_page limit offset
    require_application context application_id
    gets (λ w.
        list_reviews_page context.organization_id application_id (pos_part limit) (pos_part offset)
          w.repository)

  unfoldable pub service_get_policy : Uuid → Uuid → Action AdmissionsPolicy
  service_get_policy program_id intake_id = do
    authorize context admissions_policy_manage
    found ← gets (λ w. get_policy context.organization_id program_id intake_id w.repository)
    lift (or_raise found not_found)
