-- ===== src/Scheduling/Repository.antt =====
-- `InMemorySchedulingRepository` and `InMemoryTeacherAvailabilityRepository` of
-- backend/src/scheduling/infrastructure/repository.py. Each write holds the lock, so it is one step.
use onwlms.Prelude.{
  Bool, List, Option, String, [], any, contains, false, filter, is_some, nat_eq, none, not, page,
  pair_eq, some, sort, string_eq, true, ℕ, ◌&&◌, ◌++◌, ◌==◌, ◌||◌, ◌∷◌,
}
use onwlms.Prelude.Dict.{Dict, has_key, insert, lookup, remove, values}
use onwlms.Core.{
  Result, Uuid, conflict, err, ok, raise_if, schedule_version_conflict, scheduling_conflict, ◌>>=◌,
  ◌>>◌,
}
use onwlms.Core.Time.{DateTime, before, same_time}
use onwlms.Scheduling.Conflicts.{HardConflict, detect_hard_conflicts}
use onwlms.Scheduling.Context.{ConstraintContext}
use onwlms.Scheduling.Generator.{order_by, session_order}
use onwlms.Scheduling.Replacement.{prepare_generated_replacement}
use onwlms.Scheduling.Sessions.{ScheduledSession}
use onwlms.Scheduling.Windows.{TeacherAvailabilityWindow}

abbrev pub SessionKey : Type 0
SessionKey = Uuid × Uuid

-- `_sessions`
abbrev pub SessionTable : Type 0
SessionTable = Dict SessionKey ScheduledSession

abbrev pub of_tenant : Uuid → SessionTable → List ScheduledSession
of_tenant organization_id t = filter (λ s. s.organization_id == organization_id) (values t)

unfoldable pub list_sessions : Uuid → SessionTable → List ScheduledSession
list_sessions organization_id t = sort session_order (of_tenant organization_id t)

unfoldable pub list_sessions_window :
    Uuid → DateTime → DateTime → ℕ → ℕ → SessionTable → List ScheduledSession
list_sessions_window organization_id starts_at ends_at limit offset t = page limit offset (
    sort session_order (
      filter
        (λ s.
          s.organization_id == organization_id
          && before s.starts_at ends_at
          && before starts_at s.ends_at)
        (values t)))

unfoldable pub get_session : Uuid → Uuid → SessionTable → Option ScheduledSession
get_session organization_id session_id t = lookup (organization_id, session_id) t

-- `expected_version is None` creates, otherwise the stored version is compared.
abbrev pub check_expected : Option ScheduledSession → Option ℕ → Result (Unit {0})
check_expected current none = raise_if (is_some current) conflict
check_expected none (some expected) = err schedule_version_conflict
check_expected (some current) (some expected) =
    raise_if (not (current.version == expected)) schedule_version_conflict

-- `_save_session`, which `save_session` calls under the lock
unfoldable pub save_session : ScheduledSession → Option ℕ → SessionTable → Result SessionTable
save_session session expected_version t = do
  check_expected (lookup (session.organization_id, session.id) t) expected_version
  ok (insert (session.organization_id, session.id) session t)

abbrev pub has_conflicts : List HardConflict → Bool
has_conflicts [] = false
has_conflicts (c ∷ cs) = true

-- The other sessions of the tenant.
abbrev pub others_of : ScheduledSession → SessionTable → List ScheduledSession
others_of session t =
    filter (λ s. s.organization_id == session.organization_id && not (s.id == session.id))
      (values t)

unfoldable pub save_conflict_free_session :
    (String → String)
    → ScheduledSession
    → Option ℕ
    → ConstraintContext
    → SessionTable
    → Result SessionTable
save_conflict_free_session casefold session expected_version constraints t = do
  conflicts ← detect_hard_conflicts casefold session (others_of session t) constraints
  raise_if (has_conflicts conflicts) scheduling_conflict
  save_session session expected_version t

-- The conflicts of each candidate beside the sessions.
unfoldable pub all_conflicts :
    (String → String)
    → List ScheduledSession
    → ConstraintContext
    → List ScheduledSession
    → Result (List HardConflict)
all_conflicts casefold sessions constraints [] = ok []
all_conflicts casefold sessions constraints (candidate ∷ rest) = do
  here ← detect_hard_conflicts casefold candidate sessions constraints
  later ← all_conflicts casefold sessions constraints rest
  ok (here ++ later)

-- `del self._sessions[key]` for each key of the tenant
abbrev pub without_tenant : Uuid → SessionTable → SessionTable
without_tenant organization_id t = filter (λ ((org, id), s). not (org == organization_id)) t

abbrev pub put_sessions : Uuid → List ScheduledSession → SessionTable → SessionTable
put_sessions organization_id [] t = t
put_sessions organization_id (s ∷ rest) t =
    put_sessions organization_id rest (insert (organization_id, s.id) s t)

-- The sessions that a replacement answers; `replaced_table` is the table after it.
unfoldable pub prepare_replacement :
    (String → String)
    → Uuid
    → List ScheduledSession
    → List Uuid
    → Dict Uuid ℕ
    → ConstraintContext
    → SessionTable
    → Result (List ScheduledSession)
prepare_replacement casefold organization_id proposed locked expected_versions constraints t = do
  prepared ←
      prepare_generated_replacement organization_id (of_tenant organization_id t) proposed locked
        expected_versions
  conflicts ← all_conflicts casefold prepared constraints prepared
  raise_if (has_conflicts conflicts) scheduling_conflict
  ok prepared

abbrev pub replaced_table : Uuid → List ScheduledSession → SessionTable → SessionTable
replaced_table organization_id prepared t =
    put_sessions organization_id prepared (without_tenant organization_id t)

-- `_windows`
abbrev pub WindowTable : Type 0
WindowTable = Dict SessionKey TeacherAvailabilityWindow

abbrev is_same_window : TeacherAvailabilityWindow → TeacherAvailabilityWindow → Bool
is_same_window w v =
    w.organization_id == v.organization_id
    && w.teacher_id == v.teacher_id
    && same_time w.starts_at v.starts_at
    && same_time w.ends_at v.ends_at

unfoldable pub create_window : TeacherAvailabilityWindow → WindowTable → Result WindowTable
create_window window t = do
  raise_if
      (has_key (window.organization_id, window.id) t
        || any (λ w. is_same_window w window) (values t))
      conflict
  ok (insert (window.organization_id, window.id) window t)

-- `delete_window`: whether there was such a window, and the table after it.
unfoldable pub delete_window : Uuid → Uuid → WindowTable → Bool × WindowTable
delete_window organization_id window_id t =
    (has_key (organization_id, window_id) t, remove (organization_id, window_id) t)

abbrev window_order : TeacherAvailabilityWindow → TeacherAvailabilityWindow → Bool
window_order w v = order_by w.starts_at w.ends_at w.id v.starts_at v.ends_at v.id

-- `teacher_ids is None or teacher_id in teacher_ids`
abbrev is_wanted : Option (List Uuid) → Uuid → Bool
is_wanted none teacher_id = true
is_wanted (some teacher_ids) teacher_id = contains teacher_id teacher_ids

-- `_matching`
unfoldable pub matching_windows :
    Uuid → Option (List Uuid) → DateTime → DateTime → WindowTable → List TeacherAvailabilityWindow
matching_windows organization_id teacher_ids starts_at ends_at t = sort window_order (
    filter
      (λ w.
        w.organization_id == organization_id
        && is_wanted teacher_ids w.teacher_id
        && before w.starts_at ends_at
        && before starts_at w.ends_at)
      (values t))

abbrev only_teacher : Option Uuid → Option (List Uuid)
only_teacher none = none
only_teacher (some id) = some (id ∷ [])

unfoldable pub list_windows_page :
    Uuid → Option Uuid → DateTime → DateTime → ℕ → ℕ → WindowTable → List TeacherAvailabilityWindow
list_windows_page organization_id teacher_id starts_at ends_at limit offset t =
    page limit offset
      (matching_windows organization_id (only_teacher teacher_id) starts_at ends_at t)

unfoldable pub list_constraint_windows :
    Uuid → List Uuid → DateTime → DateTime → WindowTable → List TeacherAvailabilityWindow
list_constraint_windows organization_id [] starts_at ends_at t = []
list_constraint_windows organization_id (i ∷ ids) starts_at ends_at t =
    matching_windows organization_id (some (i ∷ ids)) starts_at ends_at t
