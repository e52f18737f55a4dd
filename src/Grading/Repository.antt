-- ===== src/Grading/Repository.antt =====
-- `InMemoryGradingRepository` and `InMemoryExternalGradeEvidenceDirectory` of
-- backend/src/grading/infrastructure/repository.py. Each method is one step: the writes of a grade
-- hold the lock, and the other methods do not wait.
use onwlms.Prelude.{
  Bool, List, Option, String, [], any, false, filter, leb, ltb, nat_eq, none, not, page, pair_eq,
  same_bool, some, sort, string_eq, true, ℕ, ◌&&◌, ◌++◌, ◌+◌, ◌==◌, ◌||◌, ◌∷◌,
}
use onwlms.Prelude.Dict.{Dict, has_key, insert, lookup, remove, values}
use onwlms.Core.{Result, Uuid, conflict, grade_revision_conflict, ok, raise_if, ◌>>◌}
use onwlms.Core.Decimal.{Decimal, same_value}
use onwlms.Core.Text.{precedes}
use onwlms.Core.Time.{same_time}
use onwlms.Grading.Grades.{ExternalGradeEvidence, FinalGrade, GradeRevision}
use onwlms.Grading.Scales.{GradeBand, GradingScale, kind_eq}

abbrev pub GradeKey : Type 0
GradeKey = Uuid × Uuid

pub record GradingRepository : Type 0 where
  pub scales : Dict GradeKey GradingScale
  pub grades : Dict GradeKey FinalGrade
  pub course_enrollment_index : Dict GradeKey Uuid
  pub revisions : Dict GradeKey GradeRevision

abbrev pub no_grades : GradingRepository
no_grades = record { scales = []; grades = []; course_enrollment_index = []; revisions = [] }

abbrev same_points : Option Decimal → Option Decimal → Bool
same_points none none = true
same_points (some a) (some b) = same_value a b
same_points _ _ = false

abbrev same_band : GradeBand → GradeBand → Bool
same_band a b =
    same_value a.minimum_score b.minimum_score
    && a.symbol == b.symbol
    && same_bool a.passing b.passing
    && same_points a.grade_points b.grade_points

abbrev same_bands : List GradeBand → List GradeBand → Bool
same_bands [] [] = true
same_bands (a ∷ as') (b ∷ bs) = same_band a b && same_bands as' bs
same_bands _ _ = false

-- The `==` of the data class.
abbrev same_scale : GradingScale → GradingScale → Bool
same_scale a b =
    a.id == b.id
    && a.organization_id == b.organization_id
    && a.name == b.name
    && a.kind == b.kind
    && same_value a.minimum_score b.minimum_score
    && same_value a.maximum_score b.maximum_score
    && same_bands a.bands b.bands

-- `existing is not None and existing != scale`
abbrev is_changed : Option GradingScale → GradingScale → Bool
is_changed none scale = false
is_changed (some existing) scale = not (same_scale existing scale)

unfoldable pub save_scale :
    (String → String) → GradingScale → GradingRepository → Result GradingRepository
save_scale casefold scale r = do
  raise_if (is_changed (lookup (scale.organization_id, scale.id) r.scales) scale) conflict
  raise_if
      (any
        (λ (c : GradingScale).
          c.organization_id == scale.organization_id
          && not (c.id == scale.id)
          && casefold c.name == casefold scale.name)
        (values r.scales))
      conflict
  ok (record r { scales = insert (scale.organization_id, scale.id) scale r.scales })

unfoldable pub get_scale : Uuid → Uuid → GradingRepository → Option GradingScale
get_scale organization_id scale_id r = lookup (organization_id, scale_id) r.scales

unfoldable pub list_scales :
    (String → String) → Uuid → ℕ → ℕ → GradingRepository → List GradingScale
list_scales casefold organization_id limit offset r = page limit offset (
    sort
      (λ (a b : GradingScale).
        precedes (casefold a.name) (casefold b.name)
        || (casefold a.name == casefold b.name && leb a.id b.id))
      (filter (λ (s : GradingScale). s.organization_id == organization_id) (values r.scales)))

unfoldable pub create_final_grade : FinalGrade → GradingRepository → Result GradingRepository
create_final_grade grade r = do
  raise_if
      (has_key (grade.organization_id, grade.id) r.grades
        || has_key (grade.organization_id, grade.course_enrollment_id) r.course_enrollment_index)
      conflict
  ok (record r {
    grades = insert (grade.organization_id, grade.id) grade r.grades;
    course_enrollment_index =
        insert (grade.organization_id, grade.course_enrollment_id) grade.id
          r.course_enrollment_index;
  })

unfoldable pub get_final_grade : Uuid → Uuid → GradingRepository → Option FinalGrade
get_final_grade organization_id final_grade_id r = lookup (organization_id, final_grade_id) r.grades

abbrev grade_at : Uuid → Option Uuid → GradingRepository → Option FinalGrade
grade_at organization_id none r = none
grade_at organization_id (some grade_id) r = lookup (organization_id, grade_id) r.grades

unfoldable pub get_final_grade_for_course_enrollment :
    Uuid → Uuid → GradingRepository → Option FinalGrade
get_final_grade_for_course_enrollment organization_id course_enrollment_id r =
    grade_at organization_id
      (lookup (organization_id, course_enrollment_id) r.course_enrollment_index) r

abbrev same_text : Option String → Option String → Bool
same_text none none = true
same_text (some a) (some b) = a == b
same_text _ _ = false

-- Whether the evidence of the first recording differs.
abbrev is_rerecorded : FinalGrade → FinalGrade → Bool
is_rerecorded grade current =
    not (grade.recorded_by == current.recorded_by)
    || not (same_time grade.recorded_at current.recorded_at)
    || not (same_bool grade.recorded_after_term_closure current.recorded_after_term_closure)
    || not (same_text grade.recording_explanation current.recording_explanation)

-- `current is None or current.revision_number != expected_revision_number`
abbrev is_other_revision : Option FinalGrade → ℕ → Bool
is_other_revision none expected = true
is_other_revision (some current) expected = not (current.revision_number == expected)

abbrev loses_record : FinalGrade → Option FinalGrade → Bool
loses_record grade none = false
loses_record grade (some current) = is_rerecorded grade current

unfoldable pub revise_final_grade :
    FinalGrade → ℕ → GradeRevision → GradingRepository → Result GradingRepository
revise_final_grade grade expected revision r = do
  let current = lookup (grade.organization_id, grade.id) r.grades
  raise_if (is_other_revision current expected) grade_revision_conflict
  raise_if (not (revision.revision_number == expected + 1)) grade_revision_conflict
  raise_if (loses_record grade current) grade_revision_conflict
  raise_if (has_key (revision.organization_id, revision.id) r.revisions) grade_revision_conflict
  ok (record r {
    revisions = insert (revision.organization_id, revision.id) revision r.revisions;
    grades = insert (grade.organization_id, grade.id) grade r.grades;
  })

unfoldable pub list_student_final_grades : Uuid → Uuid → GradingRepository → List FinalGrade
list_student_final_grades organization_id student_academic_enrollment_id r =
    sort
      (λ (a b : FinalGrade).
        ltb a.term_id b.term_id || (a.term_id == b.term_id && leb a.course_id b.course_id))
      (filter
        (λ (g : FinalGrade).
          g.organization_id == organization_id
          && g.student_academic_enrollment_id == student_academic_enrollment_id)
        (values r.grades))

-- Whether a revision belongs to the grade.
abbrev pub is_revision_of : Uuid → Uuid → GradeRevision → Bool
is_revision_of organization_id final_grade_id v =
    v.organization_id == organization_id && v.final_grade_id == final_grade_id

unfoldable pub list_grade_revisions : Uuid → Uuid → GradingRepository → List GradeRevision
list_grade_revisions organization_id final_grade_id r =
    sort (λ (a b : GradeRevision). leb a.revision_number b.revision_number)
      (filter (is_revision_of organization_id final_grade_id) (values r.revisions))

pub record Evidence : Type 0 where
  pub pending : Dict GradeKey ExternalGradeEvidence
  pub acceptances : List (Uuid × Uuid × Uuid × Uuid)
  pub rejections : List (Uuid × Uuid × String × Uuid)

unfoldable pub add_evidence : Uuid → ExternalGradeEvidence → Evidence → Evidence
add_evidence organization_id evidence e = record e {
  pending = insert (organization_id, evidence.evidence_id) evidence e.pending;
}

unfoldable pub get_pending_evidence : Uuid → Uuid → Evidence → Option ExternalGradeEvidence
get_pending_evidence organization_id evidence_id e = lookup (organization_id, evidence_id) e.pending

unfoldable pub record_acceptance : Uuid → Uuid → Uuid → Uuid → Evidence → Result Evidence
record_acceptance organization_id evidence_id final_grade_id actor e = do
  raise_if (not (has_key (organization_id, evidence_id) e.pending)) conflict
  ok (record e {
    pending = remove (organization_id, evidence_id) e.pending;
    acceptances = e.acceptances ++ (organization_id, evidence_id, final_grade_id, actor) ∷ [];
  })

unfoldable pub record_rejection : Uuid → Uuid → String → Uuid → Evidence → Result Evidence
record_rejection organization_id evidence_id reason_code actor e = do
  raise_if (not (has_key (organization_id, evidence_id) e.pending)) conflict
  ok (record e {
    pending = remove (organization_id, evidence_id) e.pending;
    rejections = e.rejections ++ (organization_id, evidence_id, reason_code, actor) ∷ [];
  })
