-- ===== src/Scheduling/Context.antt =====
-- `ConstraintContext` of backend/src/scheduling/domain/models.py.
use onwlms.Prelude.{
  List, Option, String, any, filter, find, flat_map, is_unique, leb, map, nat_eq, not, pair_eq,
  string_eq, ℕ, ◌==◌,
}
use onwlms.Core.{Result, Uuid, ok, raise_if, scheduling_rule, ◌>>◌}
use onwlms.Core.Text.{is_blank}
use onwlms.Scheduling.Windows.{TimeWindow}

pub record RoomSpecification : Type 0 where
  pub organization_id : Uuid
  pub room_id : Uuid
  pub room_type : String
  pub capacity : ℕ

unfoldable pub check_room : RoomSpecification → Result RoomSpecification
check_room r = do
  raise_if (is_blank r.room_type) scheduling_rule
  raise_if (leb r.capacity 0) scheduling_rule
  ok r

pub record TeacherAvailability : Type 0 where
  pub organization_id : Uuid
  pub teacher_id : Uuid
  pub windows : List TimeWindow

pub record ConstraintContext : Type 0 where
  pub organization_id : Uuid
  pub rooms : List RoomSpecification
  pub teacher_availability : List TeacherAvailability
  pub academic_calendar_windows : List TimeWindow

unfoldable pub check_context : ConstraintContext → Result ConstraintContext
check_context c = do
  raise_if (not (is_unique (map (λ r. r.room_id) c.rooms))) scheduling_rule
  raise_if (not (is_unique (map (λ t. t.teacher_id) c.teacher_availability))) scheduling_rule
  raise_if (any (λ r. not (r.organization_id == c.organization_id)) c.rooms) scheduling_rule
  raise_if (any (λ t. not (t.organization_id == c.organization_id)) c.teacher_availability)
      scheduling_rule
  ok c

-- `ConstraintContext.room`
unfoldable pub room : ConstraintContext → Uuid → Option RoomSpecification
room c room_id = find (λ r. r.room_id == room_id) c.rooms

-- `ConstraintContext.teacher_windows`
unfoldable pub teacher_windows : ConstraintContext → Uuid → List TimeWindow
teacher_windows c teacher_id =
    flat_map (λ t. t.windows) (filter (λ t. t.teacher_id == teacher_id) c.teacher_availability)
