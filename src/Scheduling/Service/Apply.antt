-- ===== src/Scheduling/Service/Apply.antt =====
-- Generation: `generate`, `apply_generation` and `apply_proposal` of
-- backend/src/scheduling/application/service.py.
use onwlms.Prelude.{
  List, [], any, distinct, flat_map, is_unique, length, map, nat_beq, nat_eq, not, pair_eq,
  string_eq, ℕ, ◌++◌, ◌==◌, ◌||◌, ◌∷◌,
}
use onwlms.Prelude.Dict.{Dict, insert}
use onwlms.Core.{
  Result, TenantActorContext, Uuid, err, not_found, ok, scheduling_conflict, scheduling_rule,
}
use onwlms.Core.Exec.{ask, gets, lift, pure, require, write, ◌>>=◌, ◌>>◌}
use onwlms.Scheduling.Context.{ConstraintContext}
use onwlms.Scheduling.Generation.{
  ActivityRequest, CandidateSlot, ScheduleGenerationResult, check_request,
}
use onwlms.Scheduling.Replacement.{prepare_generated_replacement}
use onwlms.Scheduling.Repository.{
  all_conflicts, has_conflicts, list_sessions, prepare_replacement, replaced_table,
}
use onwlms.Scheduling.Service.{
  SchedulingAction, SchedulingPorts, SchedulingWorld, authorize_scheduling, earliest, horizon_end,
  latest, record_mutation_event, require_activity_references, require_generation_entitlement,
  require_session_references, scheduling_apply_generation, scheduling_generate,
}
use onwlms.Scheduling.Sessions.{ScheduledSession}
use onwlms.Scheduling.Soft.{SchedulingPolicy}

abbrev pub replaced :
    SchedulingWorld → Uuid → Result (List ScheduledSession) → Result SchedulingWorld
replaced w organization_id (ok prepared) =
    ok (record w { sessions = replaced_table organization_id prepared w.sessions })
replaced w organization_id (err e) = err e

module _ (ports : SchedulingPorts) (context : TenantActorContext) where
  -- The horizon of the slots; without a slot the method has raised.
  unfoldable pub slots_context : List CandidateSlot → List Uuid → Result ConstraintContext
  slots_context [] teacher_ids = err scheduling_rule
  slots_context (s ∷ slots) teacher_ids =
      ports.constraint_context context.organization_id
        (earliest s.starts_at (map (λ s. s.starts_at) slots))
        (latest s.ends_at (map (λ s. s.ends_at) slots)) teacher_ids

  unfoldable pub service_generate :
      List ActivityRequest
      → List CandidateSlot
      → List Uuid
      → SchedulingPolicy
      → SchedulingAction ScheduleGenerationResult
  service_generate activities candidate_slots locked_session_ids policy = do
    authorize_scheduling ports context scheduling_generate
    require_generation_entitlement ports context
    require (not (nat_beq (length candidate_slots) 0)) scheduling_rule
    require
        (not (
          any (λ a. not (a.organization_id == context.organization_id)) activities
          || any (λ s. not (s.organization_id == context.organization_id)) candidate_slots))
        not_found
    require_activity_references ports context activities
    existing ← gets (λ w. list_sessions context.organization_id w.sessions)
    constraints ← lift (
        slots_context candidate_slots (
          distinct
            (flat_map (λ a. a.teacher_ids) activities ++ flat_map (λ s. s.teacher_ids) existing)))
    request ← lift (
        check_request (record {
          organization_id = context.organization_id;
          activities = activities;
          candidate_slots = candidate_slots;
          existing_sessions = existing;
          locked_session_ids = locked_session_ids;
          constraints = constraints;
          policy = policy;
        }))
    lift (ports.generate_schedule request)

  unfoldable pub proposal_context : List ScheduledSession → Result ConstraintContext
  proposal_context [] = err scheduling_rule
  proposal_context (s ∷ sessions) =
      ports.constraint_context context.organization_id
        (earliest s.starts_at (map (λ s. s.starts_at) sessions))
        (latest (horizon_end s) (map horizon_end sessions))
        (distinct (flat_map (λ s. s.teacher_ids) (s ∷ sessions)))

  -- `replace_generated_schedule`, which answers the sessions that it stores
  unfoldable pub replace_generated_schedule :
      List ScheduledSession
      → List Uuid
      → Dict Uuid ℕ
      → ConstraintContext
      → SchedulingAction (List ScheduledSession)
  replace_generated_schedule proposed locked expected_versions constraints = do
    persisted ← ask (λ w.
        prepare_replacement ports.casefold context.organization_id proposed locked expected_versions
          constraints w.sessions)
    write (λ w. replaced w context.organization_id (
        prepare_replacement ports.casefold context.organization_id proposed locked expected_versions
          constraints w.sessions))
    pure persisted

  unfoldable pub apply_proposal :
      List ScheduledSession → List Uuid → Dict Uuid ℕ → SchedulingAction (List ScheduledSession)
  apply_proposal proposed locked expected_versions = do
    authorize_scheduling ports context scheduling_apply_generation
    require_generation_entitlement ports context
    require (not (nat_beq (length proposed) 0)) scheduling_rule
    require (not (any (λ s. not (s.organization_id == context.organization_id)) proposed)) not_found
    require (is_unique (map (λ s. s.id) proposed)) scheduling_rule
    require_session_references ports context proposed
    current ← gets (λ w. list_sessions context.organization_id w.sessions)
    lift (
        prepare_generated_replacement context.organization_id current proposed locked
          expected_versions)
    constraints ← lift (proposal_context proposed)
    conflicts ← lift (all_conflicts ports.casefold proposed constraints proposed)
    require (not (has_conflicts conflicts)) scheduling_conflict
    record_mutation_event ports context "scheduling.generation.apply.intent" context.organization_id
        "intent_recorded"
    persisted ← replace_generated_schedule proposed locked expected_versions constraints
    record_mutation_event ports context "scheduling.generation.apply.succeeded"
        context.organization_id "succeeded"
    pure persisted

  -- `dict(result.expected_versions)`
  abbrev pub dict_of : List (Uuid × ℕ) → Dict Uuid ℕ → Dict Uuid ℕ
  dict_of [] d = d
  dict_of ((i, v) ∷ rest) d = dict_of rest (insert i v d)

  unfoldable pub apply_generation : ScheduleGenerationResult → SchedulingAction (Unit {0})
  apply_generation result = do
    authorize_scheduling ports context scheduling_apply_generation
    require (not (has_conflicts result.unresolved_hard_conflicts)) scheduling_conflict
    require
        (not
          (any (λ s. not (s.organization_id == context.organization_id)) result.proposed_sessions))
        not_found
    apply_proposal result.proposed_sessions result.locked_session_ids
        (dict_of result.expected_versions [])
    pure tt
