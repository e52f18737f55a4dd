-- ===== src/Tests/Scheduling.antt =====
-- A small timetable, for the theorems on backend/src/scheduling.
use onwlms.Prelude.{
  Bool, List, String, [], arith, false, if◌then◌else◌, inl, inr, map, nat_eq, none, pair_eq, refl,
  some, string_eq, true, ℕ, ◌*◌, ◌+◌, ◌==◌, ◌↔◌, ◌∷◌, ◌≡◌, ◌⊎◌,
}
use onwlms.Prelude.Dict.{Dict, insert, lookup}
use onwlms.Prelude.Int.{pos}
use onwlms.Prelude.Quantifiers.{Member}
use onwlms.Core.{Result, Uuid, err, ok, schedule_version_conflict}
use onwlms.Core.Time.{DateTime, TzInfo}
use onwlms.Scheduling.Conflicts.{
  HardConflict, HardConstraintCode, conflicts_found, detect_hard_conflicts, overlap_conflicts,
  room_conflicts, session_conflicts, sessions_overlap, teacher_conflicts,
}
use onwlms.Scheduling.Context.{ConstraintContext, RoomSpecification, room, teacher_windows}
use onwlms.Scheduling.Feasible.{Feasible, detect_hard_conflicts_iff}
use onwlms.Scheduling.Intervals.{Within, overlaps_iff, window_contains_iff}
use onwlms.Scheduling.Recurrence.{Occurs, occurrence_starts_iff}
use onwlms.Scheduling.Replaced.{expected_versions_met, locked_kept, version_advanced}
use onwlms.Scheduling.Replacement.{
  differs, locked_ids, prepare_each, prepare_generated_replacement, prepare_one, session_beq,
  versions_equal, versions_of,
}
use onwlms.Scheduling.Sessions.{ScheduledSession, expand, occurrence_starts, occurrences, week}
use onwlms.Scheduling.Windows.{RecurrenceRule, TimeWindow, overlaps, window_contains}

abbrev pub utc : TzInfo
utc = TzInfo.offset (pos 0)

abbrev pub at : ℕ → DateTime
at instant = record { instant = instant; tzinfo = utc }

abbrev pub hours : ℕ → ℕ
hours n = n * 3_600_000_000

-- A lecture of two hours in a room, each week at most up to an hour.
abbrev pub lecture : Uuid → Uuid → Uuid → ℕ → Bool → ℕ → ScheduledSession
lecture id room_id teacher_id start locked version = record {
  id = id;
  organization_id = 1;
  activity_id = 50;
  course_offering_id = 60;
  room_id = room_id;
  teacher_ids = teacher_id ∷ [];
  group_ids = 30 ∷ [];
  required_group_ids = [];
  starts_at = at (hours start);
  ends_at = at (hours (start + 2));
  activity_type = "lecture";
  required_room_type = "hall";
  expected_attendance = 20;
  recurrence = none;
  locked = locked;
  version = version;
}

abbrev current_sessions : List ScheduledSession
current_sessions = lecture 10 70 80 24 true 3 ∷ lecture 11 70 81 30 false 1 ∷ []

abbrev proposed_sessions : List ScheduledSession
proposed_sessions =
    lecture 10 70 80 24 true 3 ∷ lecture 11 71 81 30 false 1 ∷ lecture 12 71 81 40 false 0 ∷ []

abbrev prepared_sessions : List ScheduledSession
prepared_sessions =
    lecture 10 70 80 24 true 3 ∷ lecture 11 71 81 30 false 2 ∷ lecture 12 71 81 40 false 0 ∷ []

abbrev snapshot : Dict Uuid ℕ
snapshot = (11, 1) ∷ (10, 3) ∷ []

replaced :
    prepare_generated_replacement 1 current_sessions proposed_sessions [] snapshot
    ≡ ok prepared_sessions
unfolding prepare_generated_replacement insert lookup versions_of versions_equal differs session_beq
    prepare_each prepare_one
replaced = refl

-- A caller whose snapshot is older is refused.
stale :
    prepare_generated_replacement 1 current_sessions proposed_sessions [] ((10, 3) ∷ (11, 0) ∷ [])
    ≡ err schedule_version_conflict
unfolding prepare_generated_replacement insert lookup versions_of versions_equal
stale = refl

locked_kept_example : Member (lecture 10 70 80 24 true 3) prepared_sessions
unfolding lookup insert
locked_kept_example =
    locked_kept 1 current_sessions proposed_sessions [] snapshot prepared_sessions replaced 10
      (lecture 10 70 80 24 true 3) (inl refl) refl

version_advanced_example :
    (Member 11 (locked_ids current_sessions [])
      × (lecture 11 71 81 30 false 2 ≡ lecture 11 70 81 30 false 1))
    ⊎ (2 ≡ 1 + 1)
unfolding lookup insert
version_advanced_example =
    version_advanced 1 current_sessions proposed_sessions [] snapshot prepared_sessions replaced
      (lecture 11 71 81 30 false 2) (lecture 11 70 81 30 false 1) (inr (inl refl)) refl

expected_versions_met_example : lookup 11 snapshot ≡ some 1
unfolding lookup insert
expected_versions_met_example =
    expected_versions_met 1 current_sessions proposed_sessions [] snapshot prepared_sessions
      replaced 11 (lecture 11 70 81 30 false 1) refl

abbrev pub hall : RoomSpecification
hall = record { organization_id = 1; room_id = 70; room_type = "Hall"; capacity = 40 }

abbrev pub term : TimeWindow
term = record { starts_at = at (hours 0); ends_at = at (hours 1000) }

abbrev pub constraints : ConstraintContext
constraints = record {
  organization_id = 1;
  rooms = hall ∷ [];
  teacher_availability = record { organization_id = 1; teacher_id = 80; windows = term ∷ [] } ∷ [];
  academic_calendar_windows = term ∷ [];
}

-- A `casefold` for the texts of the example.
abbrev pub lower : String → String
lower s = if s == "Hall" then "hall" else s

abbrev codes : Result (List HardConflict) → List HardConstraintCode
codes (ok conflicts) = map (λ c. c.code) conflicts
codes (err e) = []

-- The session clashes with one in its room an hour later.
detected :
    codes (
      detect_hard_conflicts lower
        (lecture 10 70 80 24 false 0)
        (lecture 11 70 81 25 false 0 ∷ [])
        constraints)
    ≡ HardConstraintCode.room_overlap ∷ []
unfolding detect_hard_conflicts conflicts_found room_conflicts room teacher_conflicts
    teacher_windows session_conflicts sessions_overlap overlap_conflicts occurrences overlaps
    window_contains
detected = refl

detect_hard_conflicts_iff_example :
    (detect_hard_conflicts lower
        (lecture 10 70 80 24 false 0)
        (lecture 11 70 81 26 false 0 ∷ [])
        constraints
      ≡ ok [])
    ↔ Feasible lower (lecture 10 70 80 24 false 0) (lecture 11 70 81 26 false 0 ∷ []) constraints
detect_hard_conflicts_iff_example =
    detect_hard_conflicts_iff lower (lecture 10 70 80 24 false 0) (lecture 11 70 81 26 false 0 ∷ [])
      constraints

abbrev weekly : RecurrenceRule
weekly = record { interval_weeks = 2; until = at (hours 1000) }

-- Every second week: the hours 24, 360 and 696 are not after hour 1000, 1032 is.
starts :
    occurrence_starts (lecture 10 70 80 24 false 0) weekly ≡ hours 24 ∷ hours 360 ∷ hours 696 ∷ []
unfolding occurrence_starts expand
starts = refl

occurrence_starts_iff_example :
    Member (hours 360) (occurrence_starts (lecture 10 70 80 24 false 0) weekly)
    ↔ Occurs (2 * week) (hours 1000) (hours 24) (hours 360)
occurrence_starts_iff_example =
    occurrence_starts_iff (lecture 10 70 80 24 false 0) weekly (hours 360) (omega arith)

abbrev slot : ℕ → ℕ → TimeWindow
slot start end = record { starts_at = at (hours start); ends_at = at (hours end) }

overlaps_iff_example :
    (overlaps (slot 1 3) (slot 3 5) ≡ true) ↔ ((t : ℕ) × Within t (slot 1 3) × Within t (slot 3 5))
overlaps_iff_example = overlaps_iff (slot 1 3) (slot 3 5) (omega arith) (omega arith)

window_contains_iff_example :
    (window_contains (slot 1 5) (slot 2 3) ≡ true)
    ↔ ((t : ℕ) → Within t (slot 2 3) → Within t (slot 1 5))
window_contains_iff_example = window_contains_iff (slot 1 5) (slot 2 3) (omega arith)
