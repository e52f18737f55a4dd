-- ===== src/Tests/Generation.antt =====
-- A small generation, for the theorems on the generator of backend/src/scheduling.
use onwlms.Prelude.{
  All, [], false, is_unique, nat_eq, pair_eq, refl, string_eq, true, ℕ, ◌+◌, ◌∷◌, ◌≡◌,
}
use onwlms.Prelude.Dict.{insert, lookup}
use onwlms.Prelude.Int.{pos}
use onwlms.Prelude.Quantifiers.{All_at, Member}
use onwlms.Core.{Uuid, ok}
use onwlms.Core.Text.{is_blank, ◌+s◌}
use onwlms.Scheduling.Beside.{Harmonious, NothingTwice}
use onwlms.Scheduling.Conflicts.{
  conflicts_found, detect_hard_conflicts, overlap_conflicts, room_conflicts, session_conflicts,
  sessions_overlap, teacher_conflicts,
}
use onwlms.Scheduling.Context.{room, teacher_windows}
use onwlms.Scheduling.Generated.{generate-Harmonious, generate_complete}
use onwlms.Scheduling.Generation.{
  ActivityRequest, CandidateSlot, ScheduleGenerationRequest, ScheduleGenerationResult,
  check_activity, check_request, check_result, check_slot,
}
use onwlms.Scheduling.Generator.{
  Placed, Texts, attempt_in, attempts_in_rooms, best, candidate_attempts, feasible_of,
  place_activity, soft_penalty,
}
use onwlms.Scheduling.Generator.Generate.{
  feasible_placement_count, generate, locked_activity_count, locked_conflicts, place_activities,
  place_all, place_ordinals, ranked, scored,
}
use onwlms.Scheduling.Placing.{IsAnswer, place_activity-IsAnswer}
use onwlms.Scheduling.Returns.{IsAnswerable}
use onwlms.Scheduling.Returns.Whole.{generate-Returns}
use onwlms.Scheduling.Sessions.{
  ScheduledSession, check_session, expand, occurrence_starts, occurrences,
}
use onwlms.Scheduling.Soft.{SchedulingPolicy, preferred_hours_violations}
use onwlms.Scheduling.Soft.Balance.{balance_violations, count_weekdays, is_unbalanced}
use onwlms.Scheduling.Soft.Detect.{detect_soft_constraint_violations}
use onwlms.Scheduling.Soft.Timing.{group_meetings, grouped_violations, timing_violations}
use onwlms.Scheduling.Windows.{daily_contains, overlaps, window_contains}
use onwlms.Tests.Scheduling.{at, constraints, hall, hours, lecture, lower}

abbrev pub texts : Texts
texts = record {
  casefold = lower;
  str_uuid = λ id. "u";
  str_int = λ n. "n";
  uuid5_url = λ text. 99;
}

abbrev activity : ActivityRequest
activity = record {
  id = 90;
  organization_id = 1;
  course_offering_id = 60;
  teacher_ids = 80 ∷ [];
  group_ids = 30 ∷ [];
  required_group_ids = [];
  activity_type = "lecture";
  required_room_type = "hall";
  expected_attendance = 20;
  duration = pos (hours 2);
  sessions_required = 1;
}

-- A slot of two hours.
abbrev slot_at : Uuid → ℕ → CandidateSlot
slot_at id start = record {
  id = id;
  organization_id = 1;
  starts_at = at (hours start);
  ends_at = at (hours (start + 2));
}

abbrev early : CandidateSlot
early = slot_at 5 24

abbrev late : CandidateSlot
late = slot_at 6 26

abbrev held : ScheduledSession
held = lecture 10 70 80 24 true 3

abbrev proposed_lecture : ScheduledSession
proposed_lecture = record (lecture 99 70 80 26 false 0) { activity_id = 90 }

abbrev policy : SchedulingPolicy
policy = record {
  maximum_consecutive_sessions = 4;
  consecutive_break_threshold = hours 1;
  preferred_gap_limit = hours 3;
  preferred_hours = [];
  penalty_per_violation = 5_000_000;
}

-- The first slot is taken by a locked session.
abbrev request : ScheduleGenerationRequest
request = record {
  organization_id = 1;
  activities = activity ∷ [];
  candidate_slots = late ∷ early ∷ [];
  existing_sessions = held ∷ [];
  locked_session_ids = 10 ∷ [];
  constraints = constraints;
  policy = policy;
}

abbrev result : ScheduleGenerationResult
result = record {
  proposed_sessions = held ∷ proposed_lecture ∷ [];
  unresolved_hard_conflicts = [];
  soft_constraint_violations = [];
  quality_score = 100_000_000;
  explanation =
      "Deterministic heuristic placed n sessions; n hard conflicts remain and n preference violations were scored.";
  locked_session_ids = 10 ∷ [];
  expected_versions = (10, 3) ∷ [];
}

blocked_first :
    place_activity texts request activity 0 (held ∷ []) (early ∷ late ∷ []) (hall ∷ [])
    ≡ ok (Placed.placed proposed_lecture)
unfolding place_activity candidate_attempts attempts_in_rooms attempt_in feasible_of best
    soft_penalty detect_soft_constraint_violations preferred_hours_violations group_meetings
    grouped_violations timing_violations count_weekdays balance_violations is_unbalanced
    check_session detect_hard_conflicts conflicts_found room_conflicts room teacher_conflicts
    teacher_windows session_conflicts sessions_overlap overlap_conflicts occurrences
    occurrence_starts expand overlaps window_contains insert lookup ◌+s◌ is_blank daily_contains
blocked_first = refl

place_activity-IsAnswer_example :
    IsAnswer texts request activity 0
      (held ∷ [])
      (early ∷ late ∷ [])
      (hall ∷ [])
      (Placed.placed proposed_lecture)
place_activity-IsAnswer_example =
    place_activity-IsAnswer texts request activity 0 (held ∷ []) (early ∷ late ∷ []) (hall ∷ [])
      (Placed.placed proposed_lecture) blocked_first

generated : generate texts request ≡ ok result
unfolding generate place_all locked_conflicts ranked feasible_placement_count place_activities
    place_ordinals scored check_result locked_activity_count place_activity candidate_attempts
    attempts_in_rooms attempt_in feasible_of best soft_penalty detect_soft_constraint_violations
    preferred_hours_violations group_meetings grouped_violations timing_violations count_weekdays
    balance_violations is_unbalanced check_session detect_hard_conflicts conflicts_found
    room_conflicts room teacher_conflicts teacher_windows session_conflicts sessions_overlap
    overlap_conflicts occurrences occurrence_starts expand overlaps window_contains insert lookup
    ◌+s◌ is_blank daily_contains
generated = refl

generate-Harmonious_example :
    Harmonious lower constraints (held ∷ proposed_lecture ∷ [])
    × NothingTwice (held ∷ proposed_lecture ∷ [])
generate-Harmonious_example = generate-Harmonious texts request result generated refl refl

generate_complete_example :
    All (λ s. Member s (held ∷ proposed_lecture ∷ [])) (held ∷ []) × (2 + 0 ≡ 1 + 1)
generate_complete_example = generate_complete texts request result generated

-- A session that was generated for the ordinal 1 and is listed now, alone of its activity.
abbrev kept_lecture : ScheduledSession
kept_lecture = record (lecture 99 70 80 24 true 3) { activity_id = 90 }

-- The ordinal 1 is taken again, and the identifier with it: the conflicts of the candidate leave out
-- the session with the same identifier, and one room is proposed twice for one time.
repeated_identifier :
    generate texts (record request {
      activities = record activity { sessions_required = 2 } ∷ [];
      candidate_slots = early ∷ [];
      existing_sessions = kept_lecture ∷ [];
      locked_session_ids = 99 ∷ [];
    })
    ≡ ok (record result {
      proposed_sessions =
          kept_lecture ∷ record (lecture 99 70 80 24 false 0) { activity_id = 90 } ∷ [];
      locked_session_ids = 99 ∷ [];
      expected_versions = (99, 3) ∷ [];
    })
unfolding generate place_all locked_conflicts ranked feasible_placement_count place_activities
    place_ordinals scored check_result locked_activity_count place_activity candidate_attempts
    attempts_in_rooms attempt_in feasible_of best soft_penalty detect_soft_constraint_violations
    preferred_hours_violations group_meetings grouped_violations timing_violations count_weekdays
    balance_violations is_unbalanced check_session detect_hard_conflicts conflicts_found
    room_conflicts room teacher_conflicts teacher_windows session_conflicts sessions_overlap
    overlap_conflicts occurrences occurrence_starts expand overlaps window_contains insert lookup
    ◌+s◌ is_blank daily_contains
repeated_identifier = refl

answerable : IsAnswerable request
unfolding check_request check_activity check_slot is_blank
answerable = record {
  checked = refl;
  activities = λ a m.
      All_at
        (λ a.
          (check_activity a ≡ ok a)
          × (is_unique a.teacher_ids ≡ true)
          × (is_unique a.group_ids ≡ true))
        (activity ∷ []) ((refl, refl, refl), tt) a m;
  slots = λ s m. All_at (λ s. check_slot s ≡ ok s) (late ∷ early ∷ []) (refl, (refl, tt)) s m;
  unique = refl;
}

generate-Returns_example : (r : ScheduleGenerationResult) × (generate texts request ≡ ok r)
generate-Returns_example = generate-Returns texts request answerable

-- A request that does not list the session drops it, though it is flagged as locked, and gives its
-- place away.
flag_ignored :
    generate texts (record request { locked_session_ids = [] })
    ≡ ok (record result {
      proposed_sessions = record (lecture 99 70 80 24 false 0) { activity_id = 90 } ∷ [];
      locked_session_ids = [];
    })
unfolding generate place_all locked_conflicts ranked feasible_placement_count place_activities
    place_ordinals scored check_result locked_activity_count place_activity candidate_attempts
    attempts_in_rooms attempt_in feasible_of best soft_penalty detect_soft_constraint_violations
    preferred_hours_violations group_meetings grouped_violations timing_violations count_weekdays
    balance_violations is_unbalanced check_session detect_hard_conflicts conflicts_found
    room_conflicts room teacher_conflicts teacher_windows session_conflicts sessions_overlap
    overlap_conflicts occurrences occurrence_starts expand overlaps window_contains insert lookup
    ◌+s◌ is_blank daily_contains
flag_ignored = refl
