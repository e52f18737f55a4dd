-- ===== src/Scheduling/Windows.antt =====
-- The intervals of backend/src/scheduling/domain/models.py. A constructor call is the record passed
-- through its `check_` function, which is `__post_init__`.
use onwlms.Prelude.{Bool, leb, ltb, nat_eq, not, pair_eq, string_eq, true, ℕ, ◌&&◌, ◌*◌, ◌==◌, ◌||◌}
use onwlms.Prelude.Int.{beq_ℤ, ltb_ℤ, pos, ℤ}
use onwlms.Core.{Result, Uuid, ok, raise_if, scheduling_rule, ◌>>◌}
use onwlms.Core.Time.{
  DateTime, TzInfo, before, iso_weekday, not_after, require_aware, since, time_of_day,
}

-- `_require_utc`
abbrev is_not_utc : TzInfo → Bool
is_not_utc (TzInfo.offset z) = not (beq_ℤ z (pos 0))
is_not_utc _ = true

abbrev pub require_utc : DateTime → Result (Unit {0})
require_utc t = do require_aware scheduling_rule t; raise_if (is_not_utc t.tzinfo) scheduling_rule

abbrev pub day : ℕ
day = 86_400_000_000

-- `MAX_RECURRENCE_SPAN` and `MAX_TEACHER_AVAILABILITY_SPAN`
abbrev pub max_span : ℤ
max_span = pos (370 * day)

pub record TimeWindow : Type 0 where
  pub starts_at : DateTime
  pub ends_at : DateTime

unfoldable pub check_window : TimeWindow → Result TimeWindow
check_window w = do
  require_aware scheduling_rule w.starts_at
  require_aware scheduling_rule w.ends_at
  raise_if (not_after w.ends_at w.starts_at) scheduling_rule
  ok w

-- `TimeWindow.contains`
unfoldable pub window_contains : TimeWindow → TimeWindow → Bool
window_contains w other = not_after w.starts_at other.starts_at && not_after other.ends_at w.ends_at

-- `TimeWindow.overlaps`
unfoldable pub overlaps : TimeWindow → TimeWindow → Bool
overlaps w other = before w.starts_at other.ends_at && before other.starts_at w.ends_at

-- Local times are microseconds of the day.
pub record DailyWindow : Type 0 where
  pub weekday : ℕ
  pub starts_at : ℕ
  pub ends_at : ℕ

unfoldable pub check_daily_window : DailyWindow → Result DailyWindow
check_daily_window w = do
  raise_if (ltb w.weekday 1 || ltb 7 w.weekday) scheduling_rule
  raise_if (leb w.ends_at w.starts_at) scheduling_rule
  ok w

-- `DailyWindow.contains`
unfoldable pub daily_contains : DailyWindow → TimeWindow → Bool
daily_contains w occurrence =
    iso_weekday occurrence.starts_at == w.weekday
    && leb w.starts_at (time_of_day occurrence.starts_at)
    && leb (time_of_day occurrence.ends_at) w.ends_at

pub record RecurrenceRule : Type 0 where
  pub interval_weeks : ℕ
  pub until : DateTime

unfoldable pub check_recurrence : RecurrenceRule → Result RecurrenceRule
check_recurrence r = do
  raise_if (leb r.interval_weeks 0) scheduling_rule
  require_aware scheduling_rule r.until
  ok r

pub record TeacherAvailabilityWindow : Type 0 where
  pub id : Uuid
  pub organization_id : Uuid
  pub teacher_id : Uuid
  pub starts_at : DateTime
  pub ends_at : DateTime

unfoldable pub check_availability_window :
    TeacherAvailabilityWindow → Result TeacherAvailabilityWindow
check_availability_window w = do
  require_utc w.starts_at
  require_utc w.ends_at
  raise_if (not_after w.ends_at w.starts_at) scheduling_rule
  raise_if (ltb_ℤ max_span (since w.ends_at w.starts_at)) scheduling_rule
  ok w

-- `TeacherAvailabilityWindow.as_time_window`
unfoldable pub as_time_window : TeacherAvailabilityWindow → Result TimeWindow
as_time_window w = check_window (record { starts_at = w.starts_at; ends_at = w.ends_at })
