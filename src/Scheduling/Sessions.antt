-- ===== src/Scheduling/Sessions.antt =====
-- `ScheduledSession` of backend/src/scheduling/domain/models.py.
use onwlms.Prelude.{
  Bool, List, Option, String, [], if◌then◌else◌, is_subset, is_unique, leb, map, nat_eq, none, not,
  pair_eq, some, string_eq, suc, zero, ℕ, ◌*◌, ◌+◌, ◌-◌, ◌/◌, ◌||◌, ◌∷◌,
}
use onwlms.Prelude.Int.{ltb_ℤ}
use onwlms.Core.{Result, Uuid, ok, raise_if, scheduling_rule, ◌>>◌}
use onwlms.Core.Text.{is_blank}
use onwlms.Core.Time.{DateTime, before, not_after, require_aware, since}
use onwlms.Scheduling.Windows.{RecurrenceRule, TimeWindow, day, max_span}

-- A version is never negative here, so that check of `__post_init__` is left out.
pub record ScheduledSession : Type 0 where
  pub id : Uuid
  pub organization_id : Uuid
  pub activity_id : Uuid
  pub course_offering_id : Uuid
  pub room_id : Uuid
  pub teacher_ids : List Uuid
  pub group_ids : List Uuid
  pub required_group_ids : List Uuid
  pub starts_at : DateTime
  pub ends_at : DateTime
  pub activity_type : String
  pub required_room_type : String
  pub expected_attendance : ℕ
  pub recurrence : Option RecurrenceRule
  pub locked : Bool
  pub version : ℕ

abbrev check_span : Option RecurrenceRule → DateTime → Result (Unit {0})
check_span none starts_at = ok tt
check_span (some r) starts_at = do
  raise_if (before r.until starts_at) scheduling_rule
  raise_if (ltb_ℤ max_span (since r.until starts_at)) scheduling_rule

unfoldable pub check_session : ScheduledSession → Result ScheduledSession
check_session s = do
  require_aware scheduling_rule s.starts_at
  require_aware scheduling_rule s.ends_at
  raise_if (not_after s.ends_at s.starts_at) scheduling_rule
  raise_if (is_blank s.activity_type || is_blank s.required_room_type) scheduling_rule
  raise_if (leb s.expected_attendance 0) scheduling_rule
  raise_if (not (is_unique s.teacher_ids)) scheduling_rule
  raise_if (not (is_unique s.group_ids)) scheduling_rule
  raise_if (not (is_subset s.required_group_ids s.group_ids)) scheduling_rule
  check_span s.recurrence s.starts_at
  ok s

-- The `while` loop of `occurrences`, over instants: with fuel for its rounds.
unfoldable pub expand : ℕ → ℕ → ℕ → ℕ → List ℕ
expand zero step until start = []
expand (suc fuel) step until start =
    let rest = expand fuel step until (start + step) in if leb start until then start ∷ rest else []

-- A window of the session's length that begins at an instant, in the session's zones.
abbrev pub occurrence_at : ScheduledSession → ℕ → TimeWindow
occurrence_at s start = record {
  starts_at = record { instant = start; tzinfo = s.starts_at.tzinfo };
  ends_at = record {
    instant = start + (s.ends_at.instant - s.starts_at.instant);
    tzinfo = s.starts_at.tzinfo;
  };
}

abbrev pub week : ℕ
week = 7 * day

-- The starts of the windows; the fuel is one round more than whole steps fit.
unfoldable pub occurrence_starts : ScheduledSession → RecurrenceRule → List ℕ
unfolding expand
occurrence_starts s r =
    let step = r.interval_weeks * week in
    expand ((r.until.instant - s.starts_at.instant) / step + 1) step r.until.instant
      s.starts_at.instant

-- `ScheduledSession.occurrences`
unfoldable pub occurrences : ScheduledSession → List TimeWindow
occurrences s = elim s.recurrence [
  | none ↦ record { starts_at = s.starts_at; ends_at = s.ends_at } ∷ []
  | some r ↦ map (occurrence_at s) (occurrence_starts s r)
]
