-- ===== src/Admissions/Service/Audited.antt =====
-- The audit trail of `decide_application`.
use mathlib.Core.List.{append_assoc}
use onwlms.Prelude.{
  List, String, [], arith, inl, inr, nat_eq, pair_eq, refl, string_eq, ◌++◌, ◌∷◌, ◌≡◌, ◌⊎◌,
}
use onwlms.Core.{Result, Result-cases, TenantActorContext, Uuid, not_found, ok, or_raise}
use onwlms.Core.Exec.{◌>>=◌}
use onwlms.Core.Exec.Relates.{
  Relates, Relates-ask-bind, Relates-ask-known, Relates-gets-bind, Relates-lift-bind,
  Relates-require-bind, Relates-weaken,
}
use onwlms.Core.Time.{DateTime}
use onwlms.Admissions.Models.{AdmissionsPolicy, Application}
use onwlms.Admissions.Repository.{Repository, get_application}
use onwlms.Admissions.Repository.Keyed.{WellKeyed}
use onwlms.Admissions.Reservation.{AdmissionDecision}
use onwlms.Admissions.Service.{AuditEvent, Ports, World, audit_event}
use onwlms.Admissions.Service.Decide.{
  DecisionIds, accept, decide_application, decide_loaded, decide_on, decline, record_decision,
}
use onwlms.Admissions.Status.{
  AdmissionDecisionOutcome, ApplicationStatus, reservation_eq, stage_eq, status_eq,
}

-- The event that announces a decision.
abbrev pub intent : TenantActorContext → Uuid → String → AuditEvent
intent context application_id reason =
    audit_event context application_id "admissions.application.decision_requested" "intent_recorded"
      reason

abbrev success : TenantActorContext → Uuid → String → AuditEvent
success context application_id reason =
    audit_event context application_id "admissions.application.decided" "succeeded" reason

-- Whatever the call wrote to the repository, the intent was in the log before.
abbrev pub Announced : AuditEvent → World → World → Type 0
Announced event w w' =
    (w'.repository ≡ w.repository)
    ⊎ ((rest : List AuditEvent) × (w'.audit ≡ w.audit ++ event ∷ rest))

Announced-same : (event : AuditEvent) (w : World) → Announced event w w
Announced-same event w = inl refl

module _ (ports : Ports) (context : TenantActorContext) where
  record_decision-Announced :
      (id : Uuid) (reason : String) (store : Repository → Result Repository) (d : AdmissionDecision)
      → Relates
          (Announced (intent context id reason))
          (record_decision ports context id reason store d)
  unfolding record_decision ◌>>=◌
  record_decision-Announced id reason store d = record {
    at = λ w. elim (Result-cases (ports.record_audit (intent context id reason))) [
      | inr (e, refused) ↦ inl (ground arith)
      | inl (u, taken) ↦ elim (Result-cases (store w.repository)) [
        | inr (e, h) ↦ inl (ground arith)
        | inl (r, h) ↦ elim (Result-cases (ports.record_audit (success context id reason))) [
          | inr (e, h2) ↦ inr ([], ground arith)
          | inl (v, h2) ↦ inr (
            success context id reason ∷ [],
            ground (
              arith,
              append_assoc w.audit (intent context id reason ∷ []) (success context id reason ∷ []),
            ),
          )
        ]
      ]
    ];
  }

  ruleset announced_rules = (
    Relates-lift-bind, Relates-gets-bind, Relates-ask-bind, Relates-require-bind, Announced-same,
    record_decision-Announced,
  )

  accept-Announced :
      (now : DateTime) (ids : DecisionIds) (a : Application) (p : AdmissionsPolicy)
      (reason : String)
      → Relates (Announced (intent context a.id reason)) (accept ports context now ids a p reason)
  unfolding accept
  accept-Announced now ids a p reason = search announced_rules depth 12

  decline-Announced :
      (now : DateTime) (ids : DecisionIds) (a : Application) (o : AdmissionDecisionOutcome)
      (t : ApplicationStatus) (reason : String)
      → Relates
          (Announced (intent context a.id reason))
          (decline ports context now ids a o t reason)
  unfolding decline
  decline-Announced now ids a o t reason = search announced_rules depth 12

  decide_on-Announced :
      (now : DateTime) (ids : DecisionIds) (a : Application) (p : AdmissionsPolicy)
      (o : AdmissionDecisionOutcome) (reason : String)
      → Relates
          (Announced (intent context a.id reason))
          (decide_on ports context now ids a p o reason)
  unfolding decide_on
  decide_on-Announced now ids a p AdmissionDecisionOutcome.accepted reason =
      accept-Announced now ids a p reason
  decide_on-Announced now ids a p AdmissionDecisionOutcome.rejected reason =
      decline-Announced now ids a _ _ reason
  decide_on-Announced now ids a p AdmissionDecisionOutcome.waitlisted reason =
      decline-Announced now ids a _ _ reason

  owner :
      (v : World) (id : Uuid) (a : Application)
      → WellKeyed v.repository
      → or_raise (get_application context.organization_id id v.repository) not_found ≡ ok a
      → a.id ≡ id
  unfolding get_application
  owner v id a keyed got = ground (arith, keyed.applications (context.organization_id, id) a)

  decide_loaded-Announced :
      (now : DateTime) (ids : DecisionIds) (o : AdmissionDecisionOutcome) (reason : String)
      (a : Application)
      → Relates
          (Announced (intent context a.id reason))
          (decide_loaded ports context now ids o reason a)
  unfolding decide_loaded
  decide_loaded-Announced now ids o reason a = search (announced_rules, decide_on-Announced) depth 8

  -- However `decide_application` ends, also when the audit sink or the repository raises: if it has
  -- changed the repository, then its intent for that application went into the audit log first.
  pub decide_application-Announced :
      (now : DateTime) (ids : DecisionIds) (id : Uuid) (o : AdmissionDecisionOutcome)
      (reason : String) (w : World)
      → WellKeyed w.repository
      → Announced
          (intent context id reason)
          w
          (decide_application ports context now ids id o reason w).1
  unfolding decide_application
  decide_application-Announced now ids id o reason w keyed = run.at w keyed
    where
      Claim : World → World → Type 0
      Claim v v' = WellKeyed v.repository → Announced (intent context id reason) v v'

      run : Relates Claim (decide_application ports context now ids id o reason)
      run =
          Relates-require-bind (λ v _. inl refl) _ _ _
            λ _.
              Relates-ask-known {R = Claim} (λ v _. inl refl)
                (λ v. or_raise (get_application context.organization_id id v.repository) not_found)
                (decide_loaded ports context now ids o reason)
                λ a.
                  Relates-weaken _ (λ v v' h got keyed'. rw (← owner v id a keyed' got) h)
                    (decide_loaded-Announced now ids o reason a)
