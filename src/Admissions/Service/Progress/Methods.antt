-- ===== src/Admissions/Service/Progress/Methods.antt =====
-- The methods of backend/src/admissions/application/service.py on stored applications.
use onwlms.Prelude.{
  Bool-cases, Option, String, arith, inl, inr, nat_eq, pair_eq, refl, some, string_eq, ◌==◌, ◌≡◌,
}
use onwlms.Core.{Result, TenantActorContext, Uuid, ok}
use onwlms.Core.Exec.{modify, ◌>>=◌}
use onwlms.Core.Exec.Relates.{
  Relates, Relates-ask, Relates-ask-bind, Relates-bind, Relates-gets-bind, Relates-if, Relates-lift,
  Relates-lift-bind, Relates-pure, Relates-require-bind,
}
use onwlms.Core.Time.{DateTime}
use onwlms.Admissions.Lifecycle.{Lifecycle, transition_application_iff}
use onwlms.Admissions.Models.{AdmissionQuota, AdmissionsPolicy, Application, ReviewRecord}
use onwlms.Admissions.Repository.{Repository, save_application, save_review}
use onwlms.Admissions.Repository.Quotas.{decide_with_reservation, save_decision}
use onwlms.Admissions.Reservation.{AdmissionDecision, SeatReservation, transition_application}
use onwlms.Admissions.Service.{Ports, World, commit, record_decision_audit}
use onwlms.Admissions.Service.Decide.{
  DecisionIds, accept, decide_application, decide_loaded, decide_on, decline, record_decision,
}
use onwlms.Admissions.Service.Intake.{record_review, reviewed, submit_application}
use onwlms.Admissions.Service.Progress.{
  Moves-refl, Progress, Progress-same, Progress-trans, Steps, commit-Progress,
}
use onwlms.Admissions.Service.Progress.Stores.{
  decide-Advances, save_application-Advances, save_decision-Advances, save_review-Advances,
}
use onwlms.Admissions.Status.{
  AdmissionDecisionOutcome, ApplicationStatus, ReviewOutcome, ReviewStage, reservation_eq, stage_eq,
  status_eq,
}

pub transition-Steps :
    (a b : Application) (t : ApplicationStatus) (at : DateTime)
    → transition_application a t at ≡ ok b
    → Steps a.status b.status
transition-Steps a b t at h =
    let (_, allowed, _, _, e) = (transition_application_iff a b t at).0 h in
    rw e (1, Lifecycle.step t Lifecycle.start allowed)

modify-Progress :
    (f : World → World)
    → ((w : World) → (f w).repository ≡ w.repository)
    → Relates Progress (modify f)
unfolding ◌>>=◌
modify-Progress f h = record { at = λ w k. rw (h w) (Moves-refl _) }

pub ruleset progress_rules = (
  Relates-pure, Relates-lift, Relates-ask, Relates-lift-bind, Relates-gets-bind, Relates-ask-bind,
  Relates-require-bind, Relates-bind, Relates-if, Progress-same, Progress-trans, transition-Steps,
)

-- The commits of the service, each after a transition of the application that it stores.
commit-save_application :
    (b : Application) (s : ApplicationStatus)
    → Steps s b.status
    → Relates Progress (commit (save_application b (some s)))
commit-save_application b s h = commit-Progress _ (λ r r' e. save_application-Advances b s r r' h e)

commit-save_review :
    (v : ReviewRecord) (b : Application) (s : ApplicationStatus)
    → Steps s b.status
    → Relates Progress (commit (save_review v b s))
commit-save_review v b s h = commit-Progress _ (λ r r' e. save_review-Advances v b s r r' h e)

record_audit-Progress :
    (ports : Ports) (context : TenantActorContext) (id : Uuid) (action outcome reason : String)
    → Relates Progress (record_decision_audit ports context id action outcome reason)
record_audit-Progress ports context id action outcome reason =
    Relates-lift-bind Progress-same _ _ λ u _. modify-Progress _ (λ w. refl)

record_decision-Progress :
    (ports : Ports) (context : TenantActorContext) (id : Uuid) (reason : String)
    (store : Repository → Result Repository) (d : AdmissionDecision)
    → Relates Progress (commit store)
    → Relates Progress (record_decision ports context id reason store d)
unfolding record_decision
record_decision-Progress ports context id reason store d h =
    Relates-bind Progress-trans _ _ (record_audit-Progress ports context id _ _ reason) λ _.
      Relates-bind Progress-trans _ _ h λ _.
        Relates-bind Progress-trans _ _ (record_audit-Progress ports context id _ _ reason)
          λ _. Relates-pure Progress-same d

pub submit-Progress :
    (context : TenantActorContext) (now : DateTime) (id : Uuid)
    → Relates Progress (submit_application context now id)
unfolding submit_application
submit-Progress context now id = search (progress_rules, commit-save_application) depth 10

reviewed-Steps :
    (a b : Application) (at : DateTime) → reviewed a at ≡ ok b → Steps a.status b.status
unfolding reviewed
reviewed-Steps a b at h = elim (Bool-cases (a.status == ApplicationStatus.under_review)) [
  | inl same ↦ let e : b ≡ a = ground arith in rw e (0, Lifecycle.start)
  | inr other ↦ transition-Steps a b ApplicationStatus.under_review at (ground arith)
]

pub record_review-Progress :
    (context : TenantActorContext) (now : DateTime) (new_id id : Uuid) (stage : ReviewStage)
    (outcome : ReviewOutcome) (explanation : Option String)
    → Relates Progress (record_review context now new_id id stage outcome explanation)
unfolding record_review
record_review-Progress context now new_id id stage outcome explanation =
    search (progress_rules, commit-save_review, reviewed-Steps) depth 14

commit-decide :
    (casefold : String → String) (b : Application) (s : ApplicationStatus) (d : AdmissionDecision)
    (q : AdmissionQuota) (v : SeatReservation) (at : DateTime)
    → Steps s b.status
    → Relates Progress (commit (decide_with_reservation casefold b s d q v at))
commit-decide casefold b s d q v at h =
    commit-Progress _ (λ r r' e. decide-Advances casefold b s d q v at r r' h e)

commit-save_decision :
    (b : Application) (s : ApplicationStatus) (d : AdmissionDecision)
    → Steps s b.status
    → Relates Progress (commit (save_decision b s d))
commit-save_decision b s d h = commit-Progress _ (λ r r' e. save_decision-Advances b s d r r' h e)

module _ (ports : Ports) (context : TenantActorContext) where
  accept-Progress :
      (now : DateTime) (ids : DecisionIds) (a : Application) (p : AdmissionsPolicy)
      (reason : String)
      → Relates Progress (accept ports context now ids a p reason)
  unfolding accept
  accept-Progress now ids a p reason =
      search (progress_rules, record_decision-Progress, commit-decide) depth 14

  decline-Progress :
      (now : DateTime) (ids : DecisionIds) (a : Application) (o : AdmissionDecisionOutcome)
      (t : ApplicationStatus) (reason : String)
      → Relates Progress (decline ports context now ids a o t reason)
  unfolding decline
  decline-Progress now ids a o t reason =
      search (progress_rules, record_decision-Progress, commit-save_decision) depth 14

  decide_on-Progress :
      (now : DateTime) (ids : DecisionIds) (a : Application) (p : AdmissionsPolicy)
      (o : AdmissionDecisionOutcome) (reason : String)
      → Relates Progress (decide_on ports context now ids a p o reason)
  unfolding decide_on
  decide_on-Progress now ids a p AdmissionDecisionOutcome.accepted reason =
      accept-Progress now ids a p reason
  decide_on-Progress now ids a p AdmissionDecisionOutcome.rejected reason =
      decline-Progress now ids a _ _ reason
  decide_on-Progress now ids a p AdmissionDecisionOutcome.waitlisted reason =
      decline-Progress now ids a _ _ reason

  pub decide-Progress :
      (now : DateTime) (ids : DecisionIds) (id : Uuid) (o : AdmissionDecisionOutcome)
      (reason : String)
      → Relates Progress (decide_application ports context now ids id o reason)
  unfolding decide_application decide_loaded
  decide-Progress now ids id o reason = search (progress_rules, decide_on-Progress) depth 10
