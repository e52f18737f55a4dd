-- ===== src/Grading/Grades.antt =====
-- Grades, revisions and transcripts of backend/src/grading/domain/models.py, each record with its
-- `__post_init__` as a `check_` function. Credits are finite: they are read from a numeric column.
use onwlms.Prelude.{
  Bool, List, Option, String, [], false, filter, if◌then◌else◌, is_some, map, nat_beq, nat_eq, none,
  not, pair_eq, some, string_eq, true, ℕ, ◌∷◌,
}
use onwlms.Core.{Result, Uuid, grading_rule, ok, or_raise, raise_if, ◌>>=◌, ◌>>◌}
use onwlms.Core.Decimal.{Decimal, at_most, is_below, is_finite, same_value, whole, ◌*d◌, ◌+d◌}
use onwlms.Core.Text.{is_blank, is_blank_or_none, strip}
use onwlms.Core.Time.{DateTime, require_aware}

pub record GradeTarget : Type 0 where
  pub organization_id : Uuid
  pub student_academic_enrollment_id : Uuid
  pub course_enrollment_id : Uuid
  pub course_offering_id : Uuid
  pub term_id : Uuid
  pub course_id : Uuid
  pub credits : Decimal

unfoldable pub check_target : GradeTarget → Result GradeTarget
check_target t = do raise_if (at_most t.credits (whole 0)) grading_rule; ok t

pub record FinalGrade : Type 0 where
  pub id : Uuid
  pub organization_id : Uuid
  pub student_academic_enrollment_id : Uuid
  pub course_enrollment_id : Uuid
  pub course_offering_id : Uuid
  pub course_id : Uuid
  pub term_id : Uuid
  pub grading_scale_id : Uuid
  pub raw_score : Decimal
  pub symbol : String
  pub credits_attempted : Decimal
  pub credits_earned : Decimal
  pub grade_points : Option Decimal
  pub gpa_contribution : Option Decimal
  pub revision_number : ℕ
  pub recorded_by : Uuid
  pub recorded_at : DateTime
  pub updated_at : DateTime
  pub recorded_after_term_closure : Bool
  pub recording_explanation : Option String

-- Whether the contribution is not the grade points times the credits.
abbrev pub is_bad_contribution : Option Decimal → Option Decimal → Decimal → Bool
is_bad_contribution none contribution credits = is_some contribution
is_bad_contribution (some points) none credits = true
is_bad_contribution (some points) (some c) credits = not (same_value c (points *d credits))

-- A record after the closure of the term has an explanation, and another one has none.
abbrev pub is_bad_explanation : Bool → Option String → Bool
is_bad_explanation true explanation = is_blank_or_none explanation
is_bad_explanation false explanation = is_some explanation

-- The revision number is a natural number: the test that it is not negative always passes.
unfoldable pub check_final_grade : FinalGrade → Result FinalGrade
check_final_grade g = do
  raise_if (not (is_finite g.raw_score)) grading_rule
  raise_if (is_blank g.symbol) grading_rule
  raise_if (at_most g.credits_attempted (whole 0)) grading_rule
  raise_if (is_below g.credits_earned (whole 0)) grading_rule
  raise_if (is_below g.credits_attempted g.credits_earned) grading_rule
  raise_if (is_bad_contribution g.grade_points g.gpa_contribution g.credits_attempted) grading_rule
  require_aware grading_rule g.recorded_at
  require_aware grading_rule g.updated_at
  raise_if (is_bad_explanation g.recorded_after_term_closure g.recording_explanation) grading_rule
  ok g

pub record GradeRevision : Type 0 where
  pub id : Uuid
  pub organization_id : Uuid
  pub final_grade_id : Uuid
  pub revision_number : ℕ
  pub previous_raw_score : Decimal
  pub previous_symbol : String
  pub previous_credits_earned : Decimal
  pub previous_grade_points : Option Decimal
  pub previous_gpa_contribution : Option Decimal
  pub replacement_raw_score : Decimal
  pub replacement_symbol : String
  pub replacement_credits_earned : Decimal
  pub replacement_grade_points : Option Decimal
  pub replacement_gpa_contribution : Option Decimal
  pub explanation : String
  pub revised_by : Uuid
  pub revised_at : DateTime
  pub after_term_closure : Bool

unfoldable pub check_revision : GradeRevision → Result GradeRevision
check_revision r = do
  raise_if (nat_beq r.revision_number 0) grading_rule
  raise_if (is_blank r.explanation) grading_rule
  require_aware grading_rule r.revised_at
  ok r

pub record FinalGradeHistory : Type 0 where
  pub final_grade_id : Uuid
  pub recorded_by : Uuid
  pub recorded_at : DateTime
  pub recorded_after_term_closure : Bool
  pub recording_explanation : Option String
  pub revisions : List GradeRevision

pub record ExternalGradeEvidence : Type 0 where
  pub evidence_id : Uuid
  pub external_event_id : String
  pub course_offering_id : Uuid
  pub student_person_id : Uuid
  pub grade_value : String
  pub observed_at : DateTime
  pub source_version : String

unfoldable pub check_evidence : ExternalGradeEvidence → Result ExternalGradeEvidence
check_evidence e = do
  raise_if (is_blank e.grade_value) grading_rule
  require_aware grading_rule e.observed_at
  ok e

-- The first argument is `Decimal(value)`, which is none where that raises `InvalidOperation`.
unfoldable pub parse_external_score : (String → Option Decimal) → String → Result Decimal
parse_external_score decimal value = do
  score ← or_raise (decimal (strip value)) grading_rule
  raise_if (not (is_finite score)) grading_rule
  ok score

pub record TranscriptRecord : Type 0 where
  pub final_grade_id : Uuid
  pub course_id : Uuid
  pub course_offering_id : Uuid
  pub term_id : Uuid
  pub symbol : String
  pub credits_attempted : Decimal
  pub credits_earned : Decimal
  pub grade_points : Option Decimal
  pub gpa_contribution : Option Decimal

unfoldable pub transcript_record : FinalGrade → TranscriptRecord
transcript_record g = record {
  final_grade_id = g.id;
  course_id = g.course_id;
  course_offering_id = g.course_offering_id;
  term_id = g.term_id;
  symbol = g.symbol;
  credits_attempted = g.credits_attempted;
  credits_earned = g.credits_earned;
  grade_points = g.grade_points;
  gpa_contribution = g.gpa_contribution;
}

-- A quotient of decimals, which the source rounds to the 28 digits of the context.
pub record Quotient : Type 0 where
  pub dividend : Decimal
  pub divisor : Decimal

pub record GpaSummary : Type 0 where
  pub credits_attempted : Decimal
  pub credits_earned : Decimal
  pub gpa_credits_attempted : Decimal
  pub quality_points : Decimal
  pub gpa : Option Quotient

-- `sum(..., start=Decimal(0))`
unfoldable pub sum_from : Decimal → List Decimal → Decimal
sum_from total [] = total
sum_from total (x ∷ xs) = sum_from (total +d x) xs

-- `contribution or Decimal(0)`
abbrev or_zero : Option Decimal → Decimal
or_zero none = whole 0
or_zero (some c) = c

unfoldable pub calculate_gpa_summary : List FinalGrade → GpaSummary
calculate_gpa_summary grades =
    let attempted = sum_from (whole 0) (map (λ (g : FinalGrade). g.credits_attempted) grades) in
    let earned = sum_from (whole 0) (map (λ (g : FinalGrade). g.credits_earned) grades) in
    let gpa_grades = filter (λ (g : FinalGrade). is_some g.grade_points) grades in
    let gpa_credits =
      sum_from (whole 0) (map (λ (g : FinalGrade). g.credits_attempted) gpa_grades) in
    let quality_points =
      sum_from (whole 0) (map (λ (g : FinalGrade). or_zero g.gpa_contribution) gpa_grades) in
    record {
      credits_attempted = attempted;
      credits_earned = earned;
      gpa_credits_attempted = gpa_credits;
      quality_points = quality_points;
      gpa =
          if is_below (whole 0) gpa_credits
          then some (record { dividend = quality_points; divisor = gpa_credits })
          else none;
    }
