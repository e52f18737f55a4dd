-- ===== src/Scheduling/Generation.antt =====
-- What a schedule generator is asked and what it answers: `ActivityRequest`, `CandidateSlot`,
-- `ScheduleGenerationRequest` and `ScheduleGenerationResult` of
-- backend/src/scheduling/domain/models.py.
use onwlms.Prelude.{
  List, String, any, is_subset, is_unique, leb, ltb, map, nat_eq, not, pair_eq, string_eq, ℕ, ◌*◌,
  ◌==◌, ◌||◌,
}
use onwlms.Prelude.Int.{leb_ℤ, ltb_ℤ, pos}
use onwlms.Core.{Result, Uuid, ok, raise_if, scheduling_rule, ◌>>◌}
use onwlms.Core.Text.{is_blank}
use onwlms.Core.Time.{DateTime, TimeDelta, not_after, require_aware}
use onwlms.Scheduling.Conflicts.{HardConflict}
use onwlms.Scheduling.Context.{ConstraintContext}
use onwlms.Scheduling.Sessions.{ScheduledSession}
use onwlms.Scheduling.Soft.{SchedulingPolicy, SoftConstraintViolation}

pub record ActivityRequest : Type 0 where
  pub id : Uuid
  pub organization_id : Uuid
  pub course_offering_id : Uuid
  pub teacher_ids : List Uuid
  pub group_ids : List Uuid
  pub required_group_ids : List Uuid
  pub activity_type : String
  pub required_room_type : String
  pub expected_attendance : ℕ
  pub duration : TimeDelta
  pub sessions_required : ℕ

unfoldable pub check_activity : ActivityRequest → Result ActivityRequest
check_activity a = do
  raise_if (leb_ℤ a.duration (pos 0) || ltb_ℤ (pos (12 * 3_600_000_000)) a.duration) scheduling_rule
  raise_if (leb a.sessions_required 0 || ltb 14 a.sessions_required) scheduling_rule
  raise_if (leb a.expected_attendance 0) scheduling_rule
  raise_if (not (is_subset a.required_group_ids a.group_ids)) scheduling_rule
  raise_if (is_blank a.activity_type || is_blank a.required_room_type) scheduling_rule
  ok a

pub record CandidateSlot : Type 0 where
  pub id : Uuid
  pub organization_id : Uuid
  pub starts_at : DateTime
  pub ends_at : DateTime

unfoldable pub check_slot : CandidateSlot → Result CandidateSlot
check_slot s = do
  require_aware scheduling_rule s.starts_at
  require_aware scheduling_rule s.ends_at
  raise_if (not_after s.ends_at s.starts_at) scheduling_rule
  ok s

pub record ScheduleGenerationRequest : Type 0 where
  pub organization_id : Uuid
  pub activities : List ActivityRequest
  pub candidate_slots : List CandidateSlot
  pub existing_sessions : List ScheduledSession
  pub locked_session_ids : List Uuid
  pub constraints : ConstraintContext
  pub policy : SchedulingPolicy

unfoldable pub check_request : ScheduleGenerationRequest → Result ScheduleGenerationRequest
check_request r = do
  raise_if (not (r.constraints.organization_id == r.organization_id)) scheduling_rule
  raise_if (any (λ a. not (a.organization_id == r.organization_id)) r.activities) scheduling_rule
  raise_if (any (λ s. not (s.organization_id == r.organization_id)) r.candidate_slots)
      scheduling_rule
  raise_if (any (λ s. not (s.organization_id == r.organization_id)) r.existing_sessions)
      scheduling_rule
  raise_if (not (is_subset r.locked_session_ids (map (λ s. s.id) r.existing_sessions)))
      scheduling_rule
  raise_if (not (is_unique (map (λ a. a.id) r.activities))) scheduling_rule
  ok r

-- A score counts millionths. Scores and versions are never negative here.
pub record ScheduleGenerationResult : Type 0 where
  pub proposed_sessions : List ScheduledSession
  pub unresolved_hard_conflicts : List HardConflict
  pub soft_constraint_violations : List SoftConstraintViolation
  pub quality_score : ℕ
  pub explanation : String
  pub locked_session_ids : List Uuid
  pub expected_versions : List (Uuid × ℕ)

abbrev pub one_point : ℕ
one_point = 1_000_000

unfoldable pub check_result : ScheduleGenerationResult → Result ScheduleGenerationResult
check_result r = do
  raise_if (ltb (100 * one_point) r.quality_score) scheduling_rule
  raise_if (is_blank r.explanation) scheduling_rule
  raise_if (not (is_unique (map (λ (i, v). i) r.expected_versions))) scheduling_rule
  ok r
