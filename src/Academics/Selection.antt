-- ===== src/Academics/Selection.antt =====
-- `evaluate_course_selection` of backend/src/academics/domain/policies.py.
use onwlms.Prelude.{
  Bool, List, Option, [], any, contains, false, filter, if◌then◌else◌, leb, ltb, nat_eq, none, not,
  pair_eq, some, sort, string_eq, true, ℕ, ◌++◌, ◌+◌, ◌∷◌,
}
use onwlms.Core.{Uuid}
use onwlms.Core.Time.{DateTime, before}
use onwlms.Academics.Models.{
  CourseEnrollment, CourseOffering, CourseSelectionPolicy, CurriculumCourse, EducationMode,
  ProgramCurriculum, SelectionEvaluation, SelectionRuleCode, SelectionRuleViolation, course,
  is_enrolled, meeting_overlaps,
}

abbrev pub violation : SelectionRuleCode → List Uuid → SelectionRuleViolation
violation code related_ids = record { code = code; related_ids = related_ids }

-- `if test: violations.append(violation)`
abbrev pub violated : Bool → SelectionRuleViolation → List SelectionRuleViolation
violated true v = v ∷ []
violated false v = []

abbrev pub is_fixed : EducationMode → Bool
is_fixed EducationMode.fixed_curriculum = true
is_fixed _ = false

-- `sorted(prerequisites - completed, key=str)`, of a set given by its members
abbrev pub missing_prerequisites : List Uuid → CurriculumCourse → List Uuid
missing_prerequisites completed c =
    sort leb (filter (λ i. not (contains i completed)) c.prerequisite_course_ids)

abbrev pub if_missing : Uuid → List Uuid → List SelectionRuleViolation
if_missing course_id [] = []
if_missing course_id (i ∷ missing) =
    violation SelectionRuleCode.prerequisite_missing (course_id ∷ i ∷ missing) ∷ []

-- The credits and the violations of one selected offering.
abbrev pub evaluate_offering :
    List Uuid → Uuid → Option CurriculumCourse → ℕ × List SelectionRuleViolation
evaluate_offering completed course_id none =
    (0, violation SelectionRuleCode.prerequisite_missing (course_id ∷ []) ∷ [])
evaluate_offering completed course_id (some c) =
    (c.credits, if_missing course_id (missing_prerequisites completed c))

-- The loop over the selected offerings.
unfoldable pub evaluate_offerings :
    ProgramCurriculum → List Uuid → List CourseOffering → ℕ × List SelectionRuleViolation
evaluate_offerings curriculum completed [] = (0, [])
evaluate_offerings curriculum completed (o ∷ offerings) =
    let (credits, violations) =
      evaluate_offering completed o.course_id (course curriculum o.course_id) in
    let (later, more) = evaluate_offerings curriculum completed offerings in
    (credits + later, violations ++ more)

-- The credits of the enrollments that are in force.
unfoldable pub active_credits : List CourseEnrollment → ℕ
active_credits [] = 0
active_credits (e ∷ enrollments) =
    let later = active_credits enrollments in
    if is_enrolled e.status then e.credits + later else later

-- `_offerings_overlap`
unfoldable pub offerings_overlap : CourseOffering → CourseOffering → Bool
offerings_overlap left right =
    any (λ l. any (λ r. meeting_overlaps l r) right.meeting_windows) left.meeting_windows

-- The violations of one offering with those of a list.
unfoldable pub clashes_with : CourseOffering → List CourseOffering → List SelectionRuleViolation
clashes_with left [] = []
clashes_with left (right ∷ rest) =
    violated (offerings_overlap left right)
      (violation SelectionRuleCode.schedule_conflict (left.id ∷ right.id ∷ []))
    ++ clashes_with left rest

-- The loop over `all_pairs`: each selected offering with the later ones, and then with the existing
-- ones.
unfoldable pub clashes : List CourseOffering → List CourseOffering → List SelectionRuleViolation
clashes existing [] = []
clashes existing (left ∷ rest) =
    clashes_with left rest ++ (clashes_with left existing ++ clashes existing rest)

unfoldable pub evaluate_course_selection :
    CourseSelectionPolicy
    → ProgramCurriculum
    → List CourseOffering
    → List CourseEnrollment
    → List CourseOffering
    → List Uuid
    → DateTime
    → SelectionEvaluation
evaluate_course_selection policy curriculum selected enrollments existing completed submitted_at =
    let (credits, violations) = evaluate_offerings curriculum completed selected in
    record {
      offerings = selected;
      requested_credits = credits;
      violations =
          violated (is_fixed policy.education_mode)
            (violation SelectionRuleCode.fixed_curriculum [])
          ++ (violated (before policy.deadline submitted_at)
                (violation SelectionRuleCode.deadline_passed [])
              ++ (violations
                  ++ (violated (ltb policy.maximum_credits (active_credits enrollments + credits))
                        (violation SelectionRuleCode.maximum_credits [])
                      ++ clashes existing selected)));
    }
