-- ===== src/Academics/Models.antt =====
-- The data that course selection reads: backend/src/academics/domain/models.py. Credits are never
-- negative here, in a small unit. A constructor call is the record passed through its `check_`
-- function, which is `__post_init__`.
use onwlms.Prelude.{
  Bool, List, Option, String, contains, false, find, is_unique, leb, ltb, map, nat_eq, not, pair_eq,
  string_eq, true, ℕ, ◌&&◌, ◌==◌, ◌||◌,
}
use onwlms.Core.{Result, Uuid, academic_rule, enrollment_transition, ok, raise_if, ◌>>◌}
use onwlms.Core.Text.{is_blank}
use onwlms.Core.Time.{DateTime, require_aware}

pub data EducationMode : Type 0 where
  fixed_curriculum flexible_selection hybrid : EducationMode

pub data CurriculumCourseKind : Type 0 where
  required elective : CurriculumCourseKind

pub data CourseEnrollmentStatus : Type 0 where
  enrolled completed withdrawn : CourseEnrollmentStatus

pub data SelectionRuleCode : Type 0 where
  deadline_passed fixed_curriculum maximum_credits : SelectionRuleCode
  prerequisite_missing schedule_conflict : SelectionRuleCode

-- Wall-clock times are microseconds of the day.
pub record MeetingWindow : Type 0 where
  pub weekday : ℕ
  pub starts_at : ℕ
  pub ends_at : ℕ

unfoldable pub check_meeting : MeetingWindow → Result MeetingWindow
check_meeting w = do
  raise_if (ltb w.weekday 1 || ltb 7 w.weekday) academic_rule
  raise_if (leb w.ends_at w.starts_at) academic_rule
  ok w

-- `MeetingWindow.overlaps`
unfoldable pub meeting_overlaps : MeetingWindow → MeetingWindow → Bool
meeting_overlaps w other =
    w.weekday == other.weekday && ltb w.starts_at other.ends_at && ltb other.starts_at w.ends_at

pub record CourseOffering : Type 0 where
  pub id : Uuid
  pub organization_id : Uuid
  pub course_id : Uuid
  pub term_id : Uuid
  pub campus_id : Uuid
  pub section_code : String
  pub capacity : ℕ
  pub meeting_windows : List MeetingWindow

unfoldable pub check_offering : CourseOffering → Result CourseOffering
check_offering o = do
  raise_if (is_blank o.section_code) academic_rule
  raise_if (leb o.capacity 0) academic_rule
  ok o

pub record CourseEnrollment : Type 0 where
  pub id : Uuid
  pub organization_id : Uuid
  pub student_academic_enrollment_id : Uuid
  pub course_offering_id : Uuid
  pub credits : ℕ
  pub status : CourseEnrollmentStatus
  pub enrolled_at : DateTime
  pub selection_request_id : Option Uuid

unfoldable pub check_enrollment : CourseEnrollment → Result CourseEnrollment
check_enrollment e = do
  raise_if (leb e.credits 0) academic_rule
  require_aware academic_rule e.enrolled_at
  ok e

abbrev pub is_enrolled : CourseEnrollmentStatus → Bool
is_enrolled CourseEnrollmentStatus.enrolled = true
is_enrolled _ = false

-- `_require_enrolled`
abbrev require_enrolled : CourseEnrollment → Result (Unit {0})
require_enrolled e = raise_if (not (is_enrolled e.status)) enrollment_transition

-- `CourseEnrollment.withdraw`
unfoldable pub withdraw_enrollment : CourseEnrollment → Result CourseEnrollment
unfolding check_enrollment
withdraw_enrollment e = do
  require_enrolled e
  check_enrollment (record e { status = CourseEnrollmentStatus.withdrawn })

-- `CourseEnrollment.complete`
unfoldable pub complete_enrollment : CourseEnrollment → Result CourseEnrollment
unfolding check_enrollment
complete_enrollment e = do
  require_enrolled e
  check_enrollment (record e { status = CourseEnrollmentStatus.completed })

pub record CurriculumCourse : Type 0 where
  pub course_id : Uuid
  pub kind : CurriculumCourseKind
  pub credits : ℕ
  pub prerequisite_course_ids : List Uuid

unfoldable pub check_curriculum_course : CurriculumCourse → Result CurriculumCourse
check_curriculum_course c = do
  raise_if (leb c.credits 0) academic_rule
  raise_if (contains c.course_id c.prerequisite_course_ids) academic_rule
  ok c

pub record ProgramCurriculum : Type 0 where
  pub id : Uuid
  pub organization_id : Uuid
  pub program_id : Uuid
  pub academic_year_id : Uuid
  pub courses : List CurriculumCourse

unfoldable pub check_curriculum : ProgramCurriculum → Result ProgramCurriculum
check_curriculum c = do
  raise_if (not (is_unique (map (λ course. course.course_id) c.courses))) academic_rule
  ok c

-- `ProgramCurriculum.course`
unfoldable pub course : ProgramCurriculum → Uuid → Option CurriculumCourse
course c course_id = find (λ course. course.course_id == course_id) c.courses

pub record CourseSelectionPolicy : Type 0 where
  pub organization_id : Uuid
  pub program_id : Uuid
  pub term_id : Uuid
  pub education_mode : EducationMode
  pub maximum_credits : ℕ
  pub deadline : DateTime
  pub approval_required : Bool

unfoldable pub check_selection_policy : CourseSelectionPolicy → Result CourseSelectionPolicy
check_selection_policy p = do
  raise_if (leb p.maximum_credits 0) academic_rule
  require_aware academic_rule p.deadline
  ok p

pub record SelectionRuleViolation : Type 0 where
  pub code : SelectionRuleCode
  pub related_ids : List Uuid

pub record SelectionEvaluation : Type 0 where
  pub offerings : List CourseOffering
  pub requested_credits : ℕ
  pub violations : List SelectionRuleViolation
