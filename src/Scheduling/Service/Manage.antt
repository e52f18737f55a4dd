-- ===== src/Scheduling/Service/Manage.antt =====
-- Manual changes and reads: `create_session`, `move_session`, `set_session_lock` and the reads of
-- backend/src/scheduling/application/service.py.
use onwlms.Prelude.{
  Bool, List, Option, [], false, filter, nat_eq, none, not, pair_eq, some, string_eq, ℕ, ◌+◌, ◌==◌,
  ◌∷◌,
}
use onwlms.Core.{
  TenantActorContext, Uuid, not_found, or_raise, schedule_version_conflict, scheduling_conflict,
}
use onwlms.Core.Exec.{ask, gets, lift, pure, require, ◌>>=◌, ◌>>◌}
use onwlms.Core.Time.{DateTime}
use onwlms.Scheduling.Conflicts.{detect_hard_conflicts}
use onwlms.Scheduling.Context.{ConstraintContext}
use onwlms.Scheduling.Repository.{
  get_session, has_conflicts, list_sessions, list_sessions_window, save_conflict_free_session,
  save_session,
}
use onwlms.Scheduling.Service.{
  SchedulingAction, SchedulingPorts, authorize_scheduling, horizon_end, record_mutation_event,
  require_session_references, scheduling_read, scheduling_session_manage, store_sessions,
  validate_read_window,
}
use onwlms.Scheduling.Sessions.{ScheduledSession, check_session}

module _ (ports : SchedulingPorts) (context : TenantActorContext) where
  -- Conflicts found before the intent is recorded; the write looks again.
  unfoldable pub require_no_conflicts :
      ScheduledSession → List ScheduledSession → SchedulingAction ConstraintContext
  require_no_conflicts session existing = do
    constraints ← lift (
        ports.constraint_context context.organization_id session.starts_at (horizon_end session)
          session.teacher_ids)
    conflicts ← lift (detect_hard_conflicts ports.casefold session existing constraints)
    require (not (has_conflicts conflicts)) scheduling_conflict
    pure constraints

  unfoldable pub create_session : ScheduledSession → SchedulingAction ScheduledSession
  create_session session = do
    authorize_scheduling ports context scheduling_session_manage
    require (context.organization_id == session.organization_id) not_found
    require_session_references ports context (session ∷ [])
    existing ← gets (λ w. list_sessions context.organization_id w.sessions)
    constraints ← require_no_conflicts session existing
    record_mutation_event ports context "scheduling.session.create.intent" session.id
        "intent_recorded"
    store_sessions (save_conflict_free_session ports.casefold session none constraints)
    record_mutation_event ports context "scheduling.session.create.succeeded" session.id "succeeded"
    pure session

  unfoldable pub move_session : Uuid → DateTime → DateTime → ℕ → SchedulingAction ScheduledSession
  move_session session_id starts_at ends_at expected_version = do
    authorize_scheduling ports context scheduling_session_manage
    current ←
        ask (λ w. or_raise (get_session context.organization_id session_id w.sessions) not_found)
    require (current.version == expected_version) schedule_version_conflict
    moved ← lift (
        check_session (record current {
          starts_at = starts_at;
          ends_at = ends_at;
          version = current.version + 1;
        }))
    require_session_references ports context (moved ∷ [])
    existing ← gets (λ w.
        filter (λ s. not (s.id == current.id)) (list_sessions context.organization_id w.sessions))
    constraints ← require_no_conflicts moved existing
    record_mutation_event ports context "scheduling.session.move.intent" moved.id "intent_recorded"
    store_sessions
        (save_conflict_free_session ports.casefold moved (some current.version) constraints)
    record_mutation_event ports context "scheduling.session.move.succeeded" moved.id "succeeded"
    pure moved

  -- `expected_version is not None and current.version != expected_version`
  abbrev is_stale : Option ℕ → ℕ → Bool
  is_stale none version = false
  is_stale (some expected) version = not (version == expected)

  -- The end of `set_session_lock`, once the new session is there.
  unfoldable pub store_lock :
      ScheduledSession → ScheduledSession → SchedulingAction ScheduledSession
  store_lock current updated = do
    record_mutation_event ports context "scheduling.session.lock.intent" updated.id
        "intent_recorded"
    store_sessions (save_session updated (some current.version))
    record_mutation_event ports context "scheduling.session.lock.succeeded" updated.id "succeeded"
    pure updated

  unfoldable pub set_session_lock : Uuid → Bool → Option ℕ → SchedulingAction ScheduledSession
  set_session_lock session_id locked expected_version = do
    authorize_scheduling ports context scheduling_session_manage
    current ←
        ask (λ w. or_raise (get_session context.organization_id session_id w.sessions) not_found)
    require (not (is_stale expected_version current.version)) schedule_version_conflict
    updated ←
        lift (check_session (record current { locked = locked; version = current.version + 1 }))
    store_lock current updated

  unfoldable pub service_get_session : Uuid → SchedulingAction ScheduledSession
  service_get_session session_id = do
    authorize_scheduling ports context scheduling_read
    ask (λ w. or_raise (get_session context.organization_id session_id w.sessions) not_found)

  unfoldable pub service_list_sessions_window :
      DateTime → DateTime → ℕ → ℕ → SchedulingAction (List ScheduledSession)
  service_list_sessions_window starts_at ends_at limit offset = do
    authorize_scheduling ports context scheduling_read
    validate_read_window starts_at ends_at limit
    gets (λ w.
        list_sessions_window context.organization_id starts_at ends_at limit offset w.sessions)

  unfoldable pub service_list_sessions : SchedulingAction (List ScheduledSession)
  service_list_sessions = do
    authorize_scheduling ports context scheduling_read
    gets (λ w. list_sessions context.organization_id w.sessions)
