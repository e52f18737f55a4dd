-- ===== src/Tests/Timetable.antt =====
-- A few calls, for the theorems on the service and the repositories of backend/src/scheduling.
-- Every reference is there, and the sink takes every event.
use onwlms.Prelude.{
  List, [], arith, false, nat_eq, none, pair_eq, refl, some, string_eq, true, ◌∷◌, ◌≡◌,
}
use onwlms.Prelude.Dict.{insert, lookup}
use onwlms.Core.{TenantActorContext, conflict, err, ok, schedule_version_conflict}
use onwlms.Core.Exec.{◌>>=◌}
use onwlms.Core.Text.{is_blank}
use onwlms.Scheduling.Booked.{IsBooked}
use onwlms.Scheduling.Conflicts.{
  conflicts_found, detect_hard_conflicts, overlap_conflicts, room_conflicts, session_conflicts,
  sessions_overlap, teacher_conflicts,
}
use onwlms.Scheduling.Context.{room, teacher_windows}
use onwlms.Scheduling.Generator.Generate.{generate}
use onwlms.Scheduling.Replacement.{
  differs, prepare_each, prepare_generated_replacement, prepare_one, session_beq, versions_equal,
  versions_of,
}
use onwlms.Scheduling.Repository.{
  SessionTable, all_conflicts, create_window, delete_window, get_session, list_sessions,
  prepare_replacement, save_conflict_free_session, save_session,
}
use onwlms.Scheduling.Saves.{create_window_roundtrip, save_session_refuses_stale}
use onwlms.Scheduling.Service.{
  SchedulingPorts, SchedulingWorld, horizon_end, record_mutation_event, require_session_references,
  same_references, scheduling_apply_generation, scheduling_generate, scheduling_session_manage,
}
use onwlms.Scheduling.Service.Apply.{apply_proposal, proposal_context, replace_generated_schedule}
use onwlms.Scheduling.Service.Manage.{
  create_session, require_no_conflicts, set_session_lock, store_lock,
}
use onwlms.Scheduling.Sessions.{
  ScheduledSession, check_session, expand, occurrence_starts, occurrences,
}
use onwlms.Scheduling.Timetabled.Served.{
  TimetableMethod, serve_timetable, serve_timetables, serve_timetables-IsBooked,
}
use onwlms.Scheduling.Windows.{TeacherAvailabilityWindow, overlaps, window_contains}
use onwlms.Tests.Generation.{texts}
use onwlms.Tests.Scheduling.{at, constraints, hours, lecture, lower}

abbrev ports : SchedulingPorts
ports = record {
  constraint_context = λ org starts ends teachers. ok constraints;
  existing_references = λ requested. requested;
  record_event = λ event. ok tt;
  generate_schedule = generate texts;
  is_generation_enabled = λ org. true;
  casefold = lower;
}

abbrev planner : TenantActorContext
planner = record {
  subject_id = 2;
  organization_id = 1;
  membership_id = 3;
  correlation_id = "c";
  permissions = scheduling_session_manage ∷ scheduling_generate ∷ scheduling_apply_generation ∷ [];
}

abbrev nothing : SchedulingWorld
nothing = record { sessions = []; events = [] }

-- A session, one that clashes with it, a lock, and a generated timetable.
abbrev calls : List (TenantActorContext × TimetableMethod)
calls =
    (planner, TimetableMethod.create (lecture 10 70 80 24 false 0))
    ∷ (planner, TimetableMethod.create (lecture 11 70 80 25 false 0))
    ∷ (planner, TimetableMethod.set_lock 10 true (some 0))
    ∷ (
      planner,
      TimetableMethod.apply_sessions (lecture 10 70 80 24 true 1 ∷ lecture 12 70 80 26 false 0 ∷ [])
          [] ((10, 1) ∷ []),
    )
    ∷ []

served :
    (serve_timetables ports calls nothing).sessions
    ≡ ((1, 10), lecture 10 70 80 24 true 1) ∷ ((1, 12), lecture 12 70 80 26 false 0) ∷ []
unfolding serve_timetables serve_timetable create_session require_no_conflicts set_session_lock
    store_lock apply_proposal replace_generated_schedule proposal_context record_mutation_event
    require_session_references same_references list_sessions get_session horizon_end ◌>>=◌
    save_conflict_free_session save_session all_conflicts prepare_replacement
    prepare_generated_replacement prepare_each prepare_one differs session_beq versions_equal
    versions_of check_session detect_hard_conflicts conflicts_found room_conflicts room
    teacher_conflicts teacher_windows session_conflicts sessions_overlap overlap_conflicts
    occurrences occurrence_starts expand overlaps window_contains insert lookup is_blank
served = refl

nothing-IsBooked : IsBooked []
unfolding lookup
nothing-IsBooked = record {
  keyed = λ org id s h. absurd (ground arith);
  apart = λ org id id' s s' h h'. absurd (ground arith);
}

serve_timetables-IsBooked_example : IsBooked (serve_timetables ports calls nothing).sessions
serve_timetables-IsBooked_example = serve_timetables-IsBooked ports calls nothing nothing-IsBooked

abbrev stored_lecture : SessionTable
stored_lecture = ((1, 10), lecture 10 70 80 24 false 0) ∷ []

abbrev moved_lecture : ScheduledSession
moved_lecture = lecture 10 70 80 40 false 1

saved_once : save_session moved_lecture (some 0) stored_lecture ≡ ok (((1, 10), moved_lecture) ∷ [])
unfolding save_session lookup insert
saved_once = refl

-- A second move of what was read before the first one.
save_session_refuses_stale_example :
    (save_session (lecture 10 71 80 44 false 1) (some 0) (((1, 10), moved_lecture) ∷ [])
      ≡ err schedule_version_conflict)
    × (save_session (lecture 10 71 80 44 false 1) none (((1, 10), moved_lecture) ∷ [])
        ≡ err conflict)
save_session_refuses_stale_example =
    save_session_refuses_stale moved_lecture (lecture 10 71 80 44 false 1) 0 stored_lecture
      (((1, 10), moved_lecture) ∷ []) (λ e. omega (arith, e)) refl refl saved_once

abbrev morning : TeacherAvailabilityWindow
morning = record {
  id = 7;
  organization_id = 1;
  teacher_id = 80;
  starts_at = at (hours 8);
  ends_at = at (hours 12);
}

created_once : create_window morning [] ≡ ok (((1, 7), morning) ∷ [])
unfolding create_window lookup insert
created_once = refl

create_window_roundtrip_example :
    (delete_window 1 7 (((1, 7), morning) ∷ []) ≡ (true, []))
    × (create_window morning (((1, 7), morning) ∷ []) ≡ err conflict)
create_window_roundtrip_example =
    create_window_roundtrip morning [] (((1, 7), morning) ∷ []) created_once
