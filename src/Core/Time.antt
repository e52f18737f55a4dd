-- ===== src/Core/Time.antt =====
-- Python's `datetime` and `timedelta`. An instant counts microseconds of UTC from 0000-12-31 00:00,
-- a day before Python's first, so that no offset makes it negative; a `timedelta` is an integer of
-- microseconds. A zone is a fixed offset from UTC.
use onwlms.Prelude.{ℕ, ◌+◌, ◌-◌, ◌/◌, ◌%◌, Bool, true, false, ltb, leb, nat_beq}
use onwlms.Prelude.Int.{ℤ, pos_part, neg_part, sub_ℕ}
use onwlms.Core.Errors.{AppError, Result, raise_if}

-- `tzinfo`: none, one whose `utcoffset()` is `None`, or one with an offset.
pub data TzInfo : Type 0 where
  no_tzinfo no_offset : TzInfo
  offset : ℤ → TzInfo

pub record DateTime : Type 0 where
  pub instant : ℕ
  pub tzinfo : TzInfo

abbrev pub TimeDelta : Type 0
TimeDelta = ℤ

abbrev lacks_offset : TzInfo → Bool
lacks_offset (offset z) = false
lacks_offset _ = true

-- `value.tzinfo is None or value.utcoffset() is None`
abbrev pub is_naive : DateTime → Bool
is_naive t = lacks_offset t.tzinfo

abbrev lacks_tzinfo : TzInfo → Bool
lacks_tzinfo no_tzinfo = true
lacks_tzinfo _ = false

-- `value.tzinfo is None`
abbrev pub has_no_tzinfo : DateTime → Bool
has_no_tzinfo t = lacks_tzinfo t.tzinfo

-- `_require_aware` of the domain models, with the exception of the package.
abbrev pub require_aware : AppError → DateTime → Result (Unit {0})
require_aware e t = raise_if (is_naive t) e

-- Orders and equality of aware times are those of their instants.
abbrev pub before : DateTime → DateTime → Bool
before a b = ltb a.instant b.instant

abbrev pub not_after : DateTime → DateTime → Bool
not_after a b = leb a.instant b.instant

abbrev pub same_time : DateTime → DateTime → Bool
same_time a b = nat_beq a.instant b.instant

-- `a - b`
abbrev pub since : DateTime → DateTime → TimeDelta
since a b = sub_ℕ a.instant b.instant

-- `t + d`, in the zone of `t`
abbrev pub shift : DateTime → TimeDelta → DateTime
shift t d = record t { instant = t.instant + pos_part d - neg_part d }

abbrev pub day_length : ℕ
day_length = 86_400_000_000

abbrev wall_instant : ℕ → TzInfo → ℕ
wall_instant i (offset z) = i + pos_part z - neg_part z
wall_instant i _ = i

-- The wall clock of the value's own zone, in microseconds from 0000-12-31, a Sunday.
abbrev pub wall : DateTime → ℕ
wall t = wall_instant t.instant t.tzinfo

-- `t.date()`, as a number of days
abbrev pub day_number : DateTime → ℕ
day_number t = wall t / day_length

-- `t.isoweekday()`: Monday is 1, Sunday is 7
abbrev pub iso_weekday : DateTime → ℕ
iso_weekday t = (day_number t + 6) % 7 + 1

-- `t.timetz().replace(tzinfo=None)`, in microseconds of the day
abbrev pub time_of_day : DateTime → ℕ
time_of_day t = wall t % day_length
