-- ===== src/Scheduling/Conflicts.antt =====
-- `detect_hard_conflicts` of backend/src/scheduling/domain/constraints.py. `casefold` is
-- `str.casefold`, whose table is Unicode's.
use onwlms.Prelude.{
  Bool, List, Option, String, [], any, false, if◌then◌else◌, intersection, leb, ltb, map, nat_eq,
  none, not, pair_eq, some, sort, string_eq, true, ◌++◌, ◌==◌, ◌∷◌,
}
use onwlms.Core.{Result, Uuid, ok, raise_if, scheduling_rule, ◌>>◌}
use onwlms.Scheduling.Context.{ConstraintContext, RoomSpecification, room, teacher_windows}
use onwlms.Scheduling.Sessions.{ScheduledSession, occurrences}
use onwlms.Scheduling.Windows.{TimeWindow, overlaps, window_contains}

pub data HardConstraintCode : Type 0 where
  academic_calendar required_group_overlap room_capacity room_overlap : HardConstraintCode
  room_type teacher_overlap teacher_unavailable : HardConstraintCode
  unknown_resource unscheduled_activity : HardConstraintCode

pub record HardConflict : Type 0 where
  pub code : HardConstraintCode
  pub session_ids : List Uuid
  pub resource_id : Option Uuid
  pub explanation : String

abbrev conflict_of : HardConstraintCode → List Uuid → Option Uuid → String → HardConflict
conflict_of code session_ids resource_id explanation = record {
  code = code;
  session_ids = session_ids;
  resource_id = resource_id;
  explanation = explanation;
}

-- `if test: conflicts.append(conflict)`
abbrev pub when : Bool → HardConflict → List HardConflict
when true c = c ∷ []
when false c = []

-- `any(not any(window.contains(o) for window in windows) for o in occurrences)`
abbrev pub is_uncovered : List TimeWindow → List TimeWindow → Bool
is_uncovered windows occurrences =
    any (λ o. not (any (λ w. window_contains w o) windows)) occurrences

-- `_sessions_overlap`
unfoldable pub sessions_overlap : ScheduledSession → ScheduledSession → Bool
sessions_overlap left right =
    any (λ l. any (λ r. overlaps l r) (occurrences right)) (occurrences left)

-- `sorted(set(xs) & set(ys), key=str)`
abbrev pub shared : List Uuid → List Uuid → List Uuid
shared xs ys = sort leb (intersection xs ys)

module _ (candidate : ScheduledSession) where
  -- The conflicts with one session that overlaps.
  unfoldable pub overlap_conflicts : ScheduledSession → List HardConflict
  overlap_conflicts existing =
      when (existing.room_id == candidate.room_id) (
        conflict_of HardConstraintCode.room_overlap (candidate.id ∷ existing.id ∷ [])
          (some candidate.room_id) "Room is already booked for an overlapping session.")
      ++ (map
            (λ teacher_id.
              conflict_of HardConstraintCode.teacher_overlap (candidate.id ∷ existing.id ∷ [])
                (some teacher_id) "Teacher is assigned to overlapping sessions.")
            (shared candidate.teacher_ids existing.teacher_ids)
          ++ map
              (λ group_id.
                conflict_of HardConstraintCode.required_group_overlap
                  (candidate.id ∷ existing.id ∷ []) (some group_id)
                  "Required student group has overlapping sessions.")
              (shared candidate.required_group_ids existing.required_group_ids))

  -- The last loop: a session is skipped if it is the candidate or does not overlap.
  unfoldable pub session_conflicts : List ScheduledSession → List HardConflict
  session_conflicts [] = []
  session_conflicts (existing ∷ rest) =
      let later = session_conflicts rest in
      if existing.id == candidate.id
      then later
      else if not (sessions_overlap candidate existing)
      then later
      else overlap_conflicts existing ++ later

  -- The loop over the teachers.
  unfoldable pub teacher_conflicts : ConstraintContext → List Uuid → List HardConflict
  teacher_conflicts context [] = []
  teacher_conflicts context (teacher_id ∷ rest) =
      when (is_uncovered (teacher_windows context teacher_id) (occurrences candidate)) (
        conflict_of HardConstraintCode.teacher_unavailable (candidate.id ∷ []) (some teacher_id)
          "Teacher availability does not cover the session.")
      ++ teacher_conflicts context rest

module _ (casefold : String → String) (candidate : ScheduledSession) where
  -- The tests of the room.
  unfoldable pub room_conflicts : Option RoomSpecification → List HardConflict
  room_conflicts none =
      conflict_of HardConstraintCode.unknown_resource (candidate.id ∷ []) (some candidate.room_id)
        "The requested room is not available to this tenant."
      ∷ []
  room_conflicts (some r) =
      when (ltb r.capacity candidate.expected_attendance) (
        conflict_of HardConstraintCode.room_capacity (candidate.id ∷ []) (some r.room_id)
          "Room capacity is below expected attendance.")
      ++ when (not (casefold r.room_type == casefold candidate.required_room_type)) (
          conflict_of HardConstraintCode.room_type (candidate.id ∷ []) (some r.room_id)
            "Room type does not match the activity requirement.")

  -- The tests after the guards, in the order of the answer.
  unfoldable pub conflicts_found : List ScheduledSession → ConstraintContext → List HardConflict
  conflicts_found existing_sessions context =
      room_conflicts (room context candidate.room_id)
      ++ (when (is_uncovered context.academic_calendar_windows (occurrences candidate)) (
            conflict_of HardConstraintCode.academic_calendar (candidate.id ∷ []) none
              "Session falls outside the academic calendar.")
          ++ (teacher_conflicts candidate context candidate.teacher_ids
              ++ session_conflicts candidate existing_sessions))

  unfoldable pub detect_hard_conflicts :
      List ScheduledSession → ConstraintContext → Result (List HardConflict)
  detect_hard_conflicts existing_sessions context = do
    raise_if (not (candidate.organization_id == context.organization_id)) scheduling_rule
    raise_if (any (λ s. not (s.organization_id == candidate.organization_id)) existing_sessions)
        scheduling_rule
    ok (conflicts_found existing_sessions context)
