-- ===== src/Scheduling/Service.antt =====
-- `TimetableService` of backend/src/scheduling/application/service.py. A method reads and writes the
-- sessions and the audit log of a `SchedulingWorld`; the ports are the fields of `SchedulingPorts`.
pub mod Manage
pub mod Apply
use onwlms.Prelude.{
  Bool, List, Option, String, [], contains, flat_map, if◌then◌else◌, is_subset, ltb, map, nat_eq,
  none, not, pair_eq, some, string_eq, ℕ, ◌&&◌, ◌*◌, ◌++◌, ◌==◌, ◌||◌, ◌∷◌,
}
use onwlms.Prelude.Int.{ltb_ℤ, pos}
use onwlms.Core.{
  Result, TenantActorContext, Uuid, authorization, err, not_found, ok, scheduling_rule,
}
use onwlms.Core.Exec.{Exec, require, write, ◌>>=◌, ◌>>◌}
use onwlms.Core.Time.{DateTime, before, is_naive, not_after, shift, since}
use onwlms.Scheduling.Context.{ConstraintContext}
use onwlms.Scheduling.Generation.{
  ActivityRequest, ScheduleGenerationRequest, ScheduleGenerationResult,
}
use onwlms.Scheduling.Repository.{SessionTable}
use onwlms.Scheduling.Sessions.{ScheduledSession}
use onwlms.Scheduling.Windows.{RecurrenceRule, day}

-- `ExistingSchedulingReferences` of backend/src/scheduling/application/contracts.py; the lists
-- stand for sets.
pub record References : Type 0 where
  pub organization_id : Uuid
  pub room_ids : List Uuid
  pub course_offering_ids : List Uuid
  pub group_ids : List Uuid
  pub teacher_ids : List Uuid

abbrev same_ids : List Uuid → List Uuid → Bool
same_ids xs ys = is_subset xs ys && is_subset ys xs

-- The `==` of the data class, over sets.
unfoldable pub same_references : References → References → Bool
same_references a b =
    a.organization_id == b.organization_id
    && same_ids a.room_ids b.room_ids
    && same_ids a.course_offering_ids b.course_offering_ids
    && same_ids a.group_ids b.group_ids
    && same_ids a.teacher_ids b.teacher_ids

-- The arguments of `record_scheduling_event`.
pub record SchedulingEvent : Type 0 where
  pub action : String
  pub organization_id : Uuid
  pub actor_subject_id : Uuid
  pub target_id : Uuid
  pub correlation_id : String
  pub outcome : String

-- The resource and the reference directory, whether the audit sink takes an event, the generator,
-- the entitlement and `str.casefold`.
pub record SchedulingPorts : Type 0 where
  pub constraint_context : Uuid → DateTime → DateTime → List Uuid → Result ConstraintContext
  pub existing_references : References → References
  pub record_event : SchedulingEvent → Result (Unit {0})
  pub generate_schedule : ScheduleGenerationRequest → Result ScheduleGenerationResult
  pub is_generation_enabled : Uuid → Bool
  pub casefold : String → String

pub record SchedulingWorld : Type 0 where
  pub sessions : SessionTable
  pub events : List SchedulingEvent

abbrev pub SchedulingAction : Type 0 → Type 0
SchedulingAction A = Exec SchedulingWorld A

abbrev pub with_sessions : SchedulingWorld → Result SessionTable → Result SchedulingWorld
with_sessions w (ok t) = ok (record w { sessions = t })
with_sessions w (err e) = err e

-- A write of the repository, which raises or is done.
abbrev pub store_sessions : (SessionTable → Result SessionTable) → SchedulingAction (Unit {0})
store_sessions f = write (λ w. with_sessions w (f w.sessions))

abbrev logged : SchedulingWorld → SchedulingEvent → Result (Unit {0}) → Result SchedulingWorld
logged w e (ok _) = ok (record w { events = w.events ++ e ∷ [] })
logged w e (err raised) = err raised

module _ (ports : SchedulingPorts) (context : TenantActorContext) where
  abbrev mutation_event : String → Uuid → String → SchedulingEvent
  mutation_event action target_id outcome = record {
    action = action;
    organization_id = context.organization_id;
    actor_subject_id = context.subject_id;
    target_id = target_id;
    correlation_id = context.correlation_id;
    outcome = outcome;
  }

  -- `_record_mutation_event`: the event is logged, or the sink raises.
  unfoldable pub record_mutation_event : String → Uuid → String → SchedulingAction (Unit {0})
  record_mutation_event action target_id outcome =
      let event = mutation_event action target_id outcome in
      write (λ w. logged w event (ports.record_event event))

  -- `_authorize`
  abbrev pub authorize_scheduling : String → SchedulingAction (Unit {0})
  authorize_scheduling permission = require (contains permission context.permissions) authorization

  -- `_require_exact_references`
  abbrev require_exact_references : References → SchedulingAction (Unit {0})
  require_exact_references requested =
      require (same_references (ports.existing_references requested) requested) not_found

  -- `_require_session_references`
  unfoldable pub require_session_references : List ScheduledSession → SchedulingAction (Unit {0})
  require_session_references sessions = require_exact_references (record {
    organization_id = context.organization_id;
    room_ids = map (λ s. s.room_id) sessions;
    course_offering_ids = map (λ s. s.course_offering_id) sessions;
    group_ids = flat_map (λ s. s.group_ids) sessions;
    teacher_ids = flat_map (λ s. s.teacher_ids) sessions;
  })

  -- `_require_activity_references`
  unfoldable pub require_activity_references : List ActivityRequest → SchedulingAction (Unit {0})
  require_activity_references activities = require_exact_references (record {
    organization_id = context.organization_id;
    room_ids = [];
    course_offering_ids = map (λ a. a.course_offering_id) activities;
    group_ids = flat_map (λ a. a.group_ids) activities;
    teacher_ids = flat_map (λ a. a.teacher_ids) activities;
  })

  -- `_require_generation_entitlement`
  abbrev pub require_generation_entitlement : SchedulingAction (Unit {0})
  require_generation_entitlement =
      require (ports.is_generation_enabled context.organization_id) authorization

abbrev pub scheduling_session_manage : String
scheduling_session_manage = "scheduling.session.manage"

abbrev pub scheduling_generate : String
scheduling_generate = "scheduling.generate"

abbrev pub scheduling_apply_generation : String
scheduling_apply_generation = "scheduling.generation.apply"

abbrev pub scheduling_read : String
scheduling_read = "scheduling.read"

abbrev until_end : Option RecurrenceRule → ScheduledSession → DateTime
until_end none session = session.ends_at
until_end (some r) session = shift r.until (since session.ends_at session.starts_at)

-- `_horizon_end`
unfoldable pub horizon_end : ScheduledSession → DateTime
horizon_end session = until_end session.recurrence session

-- `min` and `max` of a first time and others
abbrev pub earliest : DateTime → List DateTime → DateTime
earliest t [] = t
earliest t (u ∷ us) = earliest (if before u t then u else t) us

abbrev pub latest : DateTime → List DateTime → DateTime
latest t [] = t
latest t (u ∷ us) = latest (if before t u then u else t) us

-- `_validate_read_window`; a limit and an offset are natural numbers.
unfoldable pub validate_read_window : DateTime → DateTime → ℕ → SchedulingAction (Unit {0})
validate_read_window starts_at ends_at limit = do
  require (not (is_naive starts_at)) scheduling_rule
  require (not (is_naive ends_at)) scheduling_rule
  require (not (not_after ends_at starts_at || ltb_ℤ (pos (31 * day)) (since ends_at starts_at)))
      scheduling_rule
  require (not (ltb limit 1 || ltb 200 limit)) scheduling_rule
