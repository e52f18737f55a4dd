-- ===== src/Admissions/Service.antt =====
-- `AdmissionsService` of backend/src/admissions/application/service.py. A method reads and writes
-- the repository and the audit log of a `World`; the clock's readings and the identifiers that
-- `new_uuid7` makes are its arguments. Ports whose code stands elsewhere are the fields of `Ports`.
pub mod Reads
pub mod Intake
pub mod Decide
pub mod Enroll
pub mod Audited
pub mod Idempotent
pub mod Progress
use onwlms.Prelude.{
  Bool, List, Option, String, [], contains, nat_eq, not, pair_eq, string_eq, ℕ, ◌++◌, ◌==◌, ◌||◌,
  ◌∷◌,
}
use onwlms.Prelude.Int.{ltb_ℤ, pos, ℤ}
use onwlms.Core.{
  Result, TenantActorContext, Uuid, admissions_rule, authorization, err, not_found, ok, or_raise,
}
use onwlms.Core.Exec.{Exec, ask, lift, modify, require, write, ◌>>=◌, ◌>>◌}
use onwlms.Core.Time.{DateTime}
use onwlms.Admissions.Models.{AdmissionsPolicy, Application, DepositRequirement}
use onwlms.Admissions.Repository.{Repository, get_application, get_policy}

pub record AcceptedApplicantEnrollmentCommand : Type 0 where
  pub idempotency_key : Uuid
  pub organization_id : Uuid
  pub application_id : Uuid
  pub student_profile_id : Uuid
  pub academic_enrollment_id : Uuid
  pub program_id : Uuid
  pub intake_id : Uuid
  pub requested_at : DateTime
  pub actor_subject_id : Uuid
  pub correlation_id : String
  pub given_name : String
  pub family_name : String
  pub email : Option String
  pub phone : Option String

pub record AcceptedApplicantEnrollmentResult : Type 0 where
  pub student_id : Uuid
  pub academic_enrollment_id : Uuid

-- The arguments of `record_admissions_decision_event`.
pub record AuditEvent : Type 0 where
  pub action : String
  pub organization_id : Uuid
  pub actor_subject_id : Uuid
  pub application_id : Uuid
  pub correlation_id : String
  pub outcome : String
  pub reason : String

-- The target directory, the deposit verifier, the registrar of the people and academics packages,
-- whether the audit sink takes an event, and `str.casefold`.
pub record Ports : Type 0 where
  pub target_exists : Uuid → Uuid → Uuid → Bool
  pub acceptance_is_open : Uuid → Uuid → Uuid → Bool
  pub is_satisfied : Uuid → Uuid → DepositRequirement → Bool
  pub enroll_accepted_applicant :
      AcceptedApplicantEnrollmentCommand → Result AcceptedApplicantEnrollmentResult
  pub record_audit : AuditEvent → Result (Unit {0})
  pub casefold : String → String

pub record World : Type 0 where
  pub repository : Repository
  pub audit : List AuditEvent

abbrev pub Action : Type 0 → Type 0
Action A = Exec World A

-- A write of the repository, which raises or is done.
abbrev stored : World → Result Repository → Result World
stored w (ok r) = ok (record w { repository = r })
stored w (err e) = err e

abbrev pub commit : (Repository → Result Repository) → Action (Unit {0})
commit f = write (λ w. stored w (f w.repository))

abbrev pub admissions_application_create : String
admissions_application_create = "admissions.application.create"

abbrev pub admissions_application_submit : String
admissions_application_submit = "admissions.application.submit"

abbrev pub admissions_document_manage : String
admissions_document_manage = "admissions.document.manage"

abbrev pub admissions_review : String
admissions_review = "admissions.review"

abbrev pub admissions_decide : String
admissions_decide = "admissions.decision.manage"

abbrev pub admissions_policy_manage : String
admissions_policy_manage = "admissions.policy.manage"

abbrev pub admissions_enroll : String
admissions_enroll = "admissions.application.enroll"

abbrev pub max_admissions_admin_page_size : ℕ
max_admissions_admin_page_size = 100

-- `_authorize`
abbrev pub authorize : TenantActorContext → String → Action (Unit {0})
authorize context permission = require (contains permission context.permissions) authorization

-- `_require_tenant`
abbrev pub require_tenant : TenantActorContext → Uuid → Action (Unit {0})
require_tenant context organization_id =
    require (context.organization_id == organization_id) not_found

-- `_validate_page`
abbrev pub validate_page : ℤ → ℤ → Action (Unit {0})
validate_page limit offset =
    require
      (not (
        ltb_ℤ limit (pos 1)
        || ltb_ℤ (pos max_admissions_admin_page_size) limit
        || ltb_ℤ offset (pos 0)))
      admissions_rule

-- `_require_application`
abbrev pub require_application : TenantActorContext → Uuid → Action Application
require_application context application_id =
    ask (λ w.
      or_raise (get_application context.organization_id application_id w.repository) not_found)

-- `_require_policy`
abbrev pub require_policy : Application → Action AdmissionsPolicy
require_policy a =
    ask
      (λ w. or_raise (get_policy a.organization_id a.program_id a.intake_id w.repository) not_found)

abbrev pub audit_event : TenantActorContext → Uuid → String → String → String → AuditEvent
audit_event context application_id action outcome reason = record {
  action = action;
  organization_id = context.organization_id;
  actor_subject_id = context.subject_id;
  application_id = application_id;
  correlation_id = context.correlation_id;
  outcome = outcome;
  reason = reason;
}

-- `_record_decision_audit`: the sink keeps the event, or raises and keeps nothing.
abbrev pub record_decision_audit :
    Ports → TenantActorContext → Uuid → String → String → String → Action (Unit {0})
record_decision_audit ports context application_id action outcome reason =
    let event = audit_event context application_id action outcome reason in
    do lift (ports.record_audit event); modify λ w. record w { audit = w.audit ++ event ∷ [] }
