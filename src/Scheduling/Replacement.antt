-- ===== src/Scheduling/Replacement.antt =====
-- `prepare_generated_replacement` of backend/src/scheduling/domain/replacement.py.
use onwlms.Prelude.{
  Bool, Eq, List, Option, [], all, any, contains, false, filter, if◌then◌else◌, length, map, nat_eq,
  none, not, pair_eq, some, string_eq, true, ℕ, ◌&&◌, ◌++◌, ◌+◌, ◌==◌, ◌∷◌,
}
use onwlms.Prelude.Dict.{Dict, has_key, insert_all, lookup}
use onwlms.Core.{
  Result, Uuid, ok, raise_if, schedule_version_conflict, scheduling_rule, ◌>>=◌, ◌>>◌,
}
use onwlms.Core.Time.{same_time}
use onwlms.Scheduling.Sessions.{ScheduledSession}
use onwlms.Scheduling.Windows.{RecurrenceRule}

abbrev pub list_beq : {A : Type 0} ⦃e : Eq A⦄ → List A → List A → Bool
list_beq [] [] = true
list_beq (x ∷ xs) (y ∷ ys) = x == y && list_beq xs ys
list_beq _ _ = false

abbrev recurrence_beq : Option RecurrenceRule → Option RecurrenceRule → Bool
recurrence_beq none none = true
recurrence_beq (some r) (some q) = r.interval_weeks == q.interval_weeks && same_time r.until q.until
recurrence_beq _ _ = false

abbrev bool_beq : Bool → Bool → Bool
bool_beq true b = b
bool_beq false b = not b

-- The `__eq__` of the dataclass: field by field.
unfoldable pub session_beq : ScheduledSession → ScheduledSession → Bool
session_beq s t =
    s.id == t.id
    && s.organization_id == t.organization_id
    && s.activity_id == t.activity_id
    && s.course_offering_id == t.course_offering_id
    && s.room_id == t.room_id
    && list_beq s.teacher_ids t.teacher_ids
    && list_beq s.group_ids t.group_ids
    && list_beq s.required_group_ids t.required_group_ids
    && same_time s.starts_at t.starts_at
    && same_time s.ends_at t.ends_at
    && s.activity_type == t.activity_type
    && s.required_room_type == t.required_room_type
    && s.expected_attendance == t.expected_attendance
    && recurrence_beq s.recurrence t.recurrence
    && bool_beq s.locked t.locked
    && s.version == t.version

-- `proposed_by_id.get(i) != current_by_id[i]`; the key is there by the test before.
unfoldable pub differs : Option ScheduledSession → Option ScheduledSession → Bool
differs (some p) (some c) = not (session_beq p c)
differs _ _ = true

abbrev pub is_version : ℕ → Option ℕ → Bool
is_version v none = false
is_version v (some w) = w == v

-- `d == e` of two dicts from identifiers to versions
unfoldable pub versions_equal : Dict Uuid ℕ → Dict Uuid ℕ → Bool
versions_equal d e = length d == length e && all (λ (k, v). is_version v (lookup k e)) d

abbrev pub by_id : List ScheduledSession → Dict Uuid ScheduledSession
by_id sessions = insert_all (λ s. s.id) sessions []

unfoldable pub versions_of : Dict Uuid ScheduledSession → Dict Uuid ℕ
versions_of [] = []
versions_of ((i, s) ∷ d) = (i, s.version) ∷ versions_of d

-- `effective_locked_session_ids`
abbrev pub locked_ids : List ScheduledSession → List Uuid → List Uuid
locked_ids current asserted = map (λ s. s.id) (filter (λ s. s.locked) current) ++ asserted

-- The body of the last loop for a session that is there.
abbrev pub prepare_known : List Uuid → ScheduledSession → ScheduledSession → Result ScheduledSession
prepare_known locked proposed current = do
  raise_if (not (proposed.version == current.version)) schedule_version_conflict
  ok (
      if contains proposed.id locked
      then current
      else record proposed { version = current.version + 1 })

abbrev pub prepare_new : ScheduledSession → Result ScheduledSession
prepare_new proposed = do
  raise_if (not (proposed.version == 0)) schedule_version_conflict
  ok proposed

-- The body of the last loop.
unfoldable pub prepare_one :
    List Uuid → Dict Uuid ScheduledSession → ScheduledSession → Result ScheduledSession
prepare_one locked current_by_id proposed = elim (lookup proposed.id current_by_id) [
  | none ↦ prepare_new proposed
  | some current ↦ prepare_known locked proposed current
]

-- The last loop: the first exception ends it.
unfoldable pub prepare_each :
    List Uuid → Dict Uuid ScheduledSession → List ScheduledSession → Result (List ScheduledSession)
prepare_each locked current_by_id [] = ok []
prepare_each locked current_by_id (proposed ∷ rest) = do
  prepared ← prepare_one locked current_by_id proposed
  later ← prepare_each locked current_by_id rest
  ok (prepared ∷ later)

unfoldable pub prepare_generated_replacement :
    Uuid
    → List ScheduledSession
    → List ScheduledSession
    → List Uuid
    → Dict Uuid ℕ
    → Result (List ScheduledSession)
prepare_generated_replacement organization_id current proposed asserted expected_versions = do
  raise_if (not (length (by_id proposed) == length proposed)) scheduling_rule
  raise_if (any (λ s. not (s.organization_id == organization_id)) proposed) scheduling_rule
  raise_if (not (versions_equal (versions_of (by_id current)) expected_versions))
      schedule_version_conflict
  raise_if (not (all (λ i. has_key i (by_id current)) asserted)) schedule_version_conflict
  raise_if
      (any (λ i. differs (lookup i (by_id proposed)) (lookup i (by_id current)))
        (locked_ids current asserted))
      schedule_version_conflict
  prepare_each (locked_ids current asserted) (by_id current) proposed
