-- ===== src/Tests/Academics.antt =====
-- A small curriculum, for the theorems on backend/src/academics.
use onwlms.Prelude.{
  List, [], arith, map, nat_eq, none, pair_eq, refl, string_eq, true, ℕ, ◌↔◌, ◌∷◌, ◌≡◌,
}
use onwlms.Prelude.Int.{pos}
use onwlms.Core.{Uuid}
use onwlms.Core.Time.{DateTime, TzInfo}
use onwlms.Academics.Admissible.{Admissible, credits_for, evaluate_course_selection_iff}
use onwlms.Academics.Meetings.{Meets, meeting_overlaps_iff}
use onwlms.Academics.Models.{
  CourseEnrollment, CourseEnrollmentStatus, CourseOffering, CourseSelectionPolicy, CurriculumCourse,
  CurriculumCourseKind, EducationMode, MeetingWindow, ProgramCurriculum, SelectionRuleCode, course,
  meeting_overlaps,
}
use onwlms.Academics.Selection.{
  active_credits, clashes, clashes_with, evaluate_course_selection, evaluate_offerings,
  offerings_overlap,
}

abbrev at : ℕ → DateTime
at instant = record { instant = instant; tzinfo = TzInfo.offset (pos 0) }

abbrev lesson : ℕ → ℕ → MeetingWindow
lesson start end = record { weekday = 1; starts_at = start; ends_at = end }

abbrev offering : Uuid → Uuid → ℕ → ℕ → CourseOffering
offering id course_id start end = record {
  id = id;
  organization_id = 1;
  course_id = course_id;
  term_id = 2;
  campus_id = 3;
  section_code = "A";
  capacity = 30;
  meeting_windows = lesson start end ∷ [];
}

abbrev in_curriculum : Uuid → List Uuid → CurriculumCourse
in_curriculum course_id prerequisites = record {
  course_id = course_id;
  kind = CurriculumCourseKind.required;
  credits = 6;
  prerequisite_course_ids = prerequisites;
}

abbrev curriculum : ProgramCurriculum
curriculum = record {
  id = 4;
  organization_id = 1;
  program_id = 5;
  academic_year_id = 6;
  courses = in_curriculum 10 [] ∷ in_curriculum 11 (9 ∷ []) ∷ [];
}

abbrev rules : CourseSelectionPolicy
rules = record {
  organization_id = 1;
  program_id = 5;
  term_id = 2;
  education_mode = EducationMode.flexible_selection;
  maximum_credits = 12;
  deadline = at 100;
  approval_required = true;
}

abbrev selection : List CourseOffering
selection = offering 20 10 100 200 ∷ offering 21 11 200 300 ∷ []

accepted_selection :
    (evaluate_course_selection rules curriculum selection [] [] (9 ∷ []) (at 100)).violations ≡ []
unfolding evaluate_course_selection evaluate_offerings course active_credits clashes clashes_with
    offerings_overlap meeting_overlaps
accepted_selection = refl

-- Without the prerequisite, with an existing meeting at the time of the first course.
refused_selection :
    map
      (λ v. v.code)
      (evaluate_course_selection rules curriculum selection []
        (offering 22 12 150 160 ∷ [])
        []
        (at 100)).violations
    ≡ SelectionRuleCode.prerequisite_missing ∷ SelectionRuleCode.schedule_conflict ∷ []
unfolding evaluate_course_selection evaluate_offerings course active_credits clashes clashes_with
    offerings_overlap meeting_overlaps
refused_selection = refl

abbrev enrolled_in : Uuid → ℕ → CourseEnrollmentStatus → CourseEnrollment
enrolled_in id credits status = record {
  id = id;
  organization_id = 1;
  student_academic_enrollment_id = 7;
  course_offering_id = 22;
  credits = credits;
  status = status;
  enrolled_at = at 50;
  selection_request_id = none;
}

-- An enrollment in force and one that was given up.
abbrev enrollments : List CourseEnrollment
enrollments =
    enrolled_in 30 4 CourseEnrollmentStatus.enrolled
    ∷ enrolled_in 31 6 CourseEnrollmentStatus.withdrawn
    ∷ []

-- Twelve credits are asked for, and sixteen are allowed.
abbrev wider_rules : CourseSelectionPolicy
wider_rules = record rules { maximum_credits = 16 }

abbrev existing : List CourseOffering
existing = offering 22 12 300 400 ∷ []

beside_existing :
    (evaluate_course_selection wider_rules curriculum selection enrollments existing
      (9 ∷ [])
      (at 100)).violations
    ≡ []
unfolding evaluate_course_selection evaluate_offerings course active_credits clashes clashes_with
    offerings_overlap meeting_overlaps
beside_existing = refl

evaluate_course_selection_iff_example :
    let evaluation =
      evaluate_course_selection wider_rules curriculum selection enrollments existing
        (9 ∷ [])
        (at 100) in
    (evaluation.requested_credits ≡ credits_for curriculum selection)
    × ((evaluation.violations ≡ [])
        ↔ Admissible wider_rules curriculum selection enrollments existing (9 ∷ []) (at 100))
evaluate_course_selection_iff_example =
    evaluate_course_selection_iff wider_rules curriculum selection enrollments existing (9 ∷ [])
      (at 100)

meeting_overlaps_iff_example :
    (meeting_overlaps (lesson 1 3) (lesson 2 4) ≡ true)
    ↔ ((day : ℕ) × (t : ℕ) × Meets day t (lesson 1 3) × Meets day t (lesson 2 4))
meeting_overlaps_iff_example =
    meeting_overlaps_iff (lesson 1 3) (lesson 2 4) (omega arith) (omega arith)
