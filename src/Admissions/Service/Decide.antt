-- ===== src/Admissions/Service/Decide.antt =====
-- `decide_application` and `_require_passing_reviews` of
-- backend/src/admissions/application/service.py.
use onwlms.Prelude.{
  Bool, List, Option, String, [], contains, false, filter, nat_eq, none, not, pair_eq, some, sort,
  string_eq, true, ◌∷◌,
}
use onwlms.Prelude.Dict.{Dict, insert_all, lookup}
use onwlms.Core.{Result, TenantActorContext, Uuid, admissions_rule, not_found, or_raise, raise_if}
use onwlms.Core.Exec.{ask, gets, lift, pure, require, ◌>>=◌, ◌>>◌}
use onwlms.Core.Time.{DateTime, not_after, shift}
use onwlms.Admissions.Models.{AdmissionsPolicy, Application, ReviewRecord, is_passed}
use onwlms.Admissions.Repository.{Repository, list_reviews}
use onwlms.Admissions.Repository.Quotas.{decide_with_reservation, get_quota, save_decision}
use onwlms.Admissions.Reservation.{
  AdmissionDecision, check_decision, check_reservation, transition_application,
}
use onwlms.Admissions.Service.{
  Action, Ports, admissions_decide, authorize, commit, record_decision_audit, require_application,
  require_policy,
}
use onwlms.Admissions.Status.{
  AdmissionDecisionOutcome, ApplicationStatus, ReservationStatus, ReviewStage, reservation_eq,
  stage_eq, status_eq,
}

-- `latest_by_stage`: a later review of a stage replaces an earlier one. The list is that of
-- `list_reviews`, by completion time; the source sorts it once more by the same key.
abbrev pub latest_by_stage : List ReviewRecord → Dict ReviewStage ReviewRecord
latest_by_stage reviews =
    insert_all (λ review. review.stage)
      (sort (λ x y. not_after x.completed_at y.completed_at) reviews) []

abbrev pub has_passed : Option ReviewRecord → Bool
has_passed none = false
has_passed (some review) = is_passed review.outcome

unfoldable pub missing_or_failed : AdmissionsPolicy → List ReviewRecord → List ReviewStage
missing_or_failed policy reviews =
    let latest = latest_by_stage reviews in
    filter (λ stage. not (has_passed (lookup stage latest))) policy.required_stages

abbrev pub is_nonempty {ℓ} : {A : Type ℓ} → List A → Bool
is_nonempty [] = false
is_nonempty (x ∷ xs) = true

abbrev pub require_passing_reviews : Application → AdmissionsPolicy → Action (Unit {0})
require_passing_reviews application policy = ask (λ w.
    raise_if
      (is_nonempty (
        missing_or_failed policy
          (list_reviews application.organization_id application.id w.repository)))
      admissions_rule)

-- The statuses in which `decide_application` decides.
abbrev pub is_ready_for_decision : ApplicationStatus → Bool
is_ready_for_decision s = contains s (
    ApplicationStatus.submitted ∷ ApplicationStatus.under_review ∷ ApplicationStatus.waitlisted
    ∷ [])

abbrev decision_record :
    TenantActorContext
    → DateTime
    → Uuid
    → Uuid
    → AdmissionDecisionOutcome
    → String
    → Option Uuid
    → AdmissionDecision
decision_record context now new_id application_id outcome reason reservation_id = record {
  id = new_id;
  organization_id = context.organization_id;
  application_id = application_id;
  outcome = outcome;
  decided_by = context.subject_id;
  decided_at = now;
  reason = reason;
  reservation_id = reservation_id;
}

-- The end of both branches: the intent, the write and the success, in this order.
unfoldable pub record_decision :
    Ports
    → TenantActorContext
    → Uuid
    → String
    → (Repository → Result Repository)
    → AdmissionDecision
    → Action AdmissionDecision
record_decision ports context application_id reason store decision = do
  record_decision_audit ports context application_id "admissions.application.decision_requested"
      "intent_recorded" reason
  commit store
  record_decision_audit ports context application_id "admissions.application.decided" "succeeded"
      reason
  pure decision

-- The identifiers that `new_uuid7` gives to the reservation and to the decision.
pub record DecisionIds : Type 0 where
  pub reservation_id : Uuid
  pub decision_id : Uuid

-- The branch of an acceptance.
unfoldable pub accept :
    Ports
    → TenantActorContext
    → DateTime
    → DecisionIds
    → Application
    → AdmissionsPolicy
    → String
    → Action AdmissionDecision
accept ports context now ids application policy reason = do
  require
      (ports.acceptance_is_open context.organization_id application.program_id
        application.intake_id)
      admissions_rule
  require_passing_reviews application policy
  found ← gets (λ w.
      get_quota ports.casefold context.organization_id application.program_id application.intake_id
        application.seat_category w.repository)
  quota ← lift (or_raise found not_found)
  reservation ← lift (
      check_reservation (record {
        id = ids.reservation_id;
        organization_id = context.organization_id;
        quota_id = quota.id;
        application_id = application.id;
        status = ReservationStatus.active;
        reserved_at = now;
        expires_at = shift now policy.reservation_duration;
        consumed_at = none;
        released_at = none;
      }))
  accepted ← lift (transition_application application ApplicationStatus.accepted now)
  decision ← lift (
      check_decision (
        decision_record context now ids.decision_id application.id AdmissionDecisionOutcome.accepted
          reason (some reservation.id)))
  record_decision ports context application.id reason
      (decide_with_reservation ports.casefold accepted application.status decision quota reservation
        now)
      decision

-- The branch of a rejection or a waitlisting.
unfoldable pub decline :
    Ports
    → TenantActorContext
    → DateTime
    → DecisionIds
    → Application
    → AdmissionDecisionOutcome
    → ApplicationStatus
    → String
    → Action AdmissionDecision
decline ports context now ids application outcome target reason = do
  decided ← lift (transition_application application target now)
  decision ← lift (
      check_decision
        (decision_record context now ids.decision_id application.id outcome reason none))
  record_decision ports context application.id reason
      (save_decision decided application.status decision) decision

-- The branches on the outcome.
unfoldable pub decide_on :
    Ports
    → TenantActorContext
    → DateTime
    → DecisionIds
    → Application
    → AdmissionsPolicy
    → AdmissionDecisionOutcome
    → String
    → Action AdmissionDecision
decide_on ports context now ids application policy AdmissionDecisionOutcome.accepted reason =
    accept ports context now ids application policy reason
decide_on ports context now ids application policy AdmissionDecisionOutcome.rejected reason =
    decline ports context now ids application AdmissionDecisionOutcome.rejected
      ApplicationStatus.rejected reason
decide_on ports context now ids application policy AdmissionDecisionOutcome.waitlisted reason =
    decline ports context now ids application AdmissionDecisionOutcome.waitlisted
      ApplicationStatus.waitlisted reason

-- The steps once the application is loaded.
unfoldable pub decide_loaded :
    Ports
    → TenantActorContext
    → DateTime
    → DecisionIds
    → AdmissionDecisionOutcome
    → String
    → Application
    → Action AdmissionDecision
decide_loaded ports context now ids outcome reason application = do
  require (is_ready_for_decision application.status) admissions_rule
  policy ← require_policy application
  decide_on ports context now ids application policy outcome reason

unfoldable pub decide_application :
    Ports
    → TenantActorContext
    → DateTime
    → DecisionIds
    → Uuid
    → AdmissionDecisionOutcome
    → String
    → Action AdmissionDecision
decide_application ports context now ids application_id outcome reason = do
  authorize context admissions_decide
  application ← require_application context application_id
  decide_loaded ports context now ids outcome reason application
