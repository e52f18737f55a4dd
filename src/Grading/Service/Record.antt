-- ===== src/Grading/Service/Record.antt =====
-- `record_final_grade` of backend/src/grading/application/service.py.
use onwlms.Prelude.{Bool, Option, String, false, nat_eq, none, not, pair_eq, some, string_eq, true}
use onwlms.Core.{TenantActorContext, Uuid, grading_rule, not_found, or_raise}
use onwlms.Core.Decimal.{Decimal}
use onwlms.Core.Exec.{lift, pure, require, ◌>>=◌, ◌>>◌}
use onwlms.Core.Text.{is_blank_or_none, strip}
use onwlms.Grading.Grades.{FinalGrade, GradeTarget, check_final_grade}
use onwlms.Grading.Repository.{create_final_grade}
use onwlms.Grading.Scales.{GradeOutcome, GradingScale, kind_eq, resolve_score}
use onwlms.Grading.Service.{
  GradeInputs, GradingAction, GradingPorts, authorize_grading, contribution, earned, grade_event,
  grading_closed_term_revise, grading_final_record, log_event, require_scale, store,
}

-- `explanation.strip() if after_term_closure and explanation is not None else None`
abbrev kept_explanation : Bool → Option String → Option String
kept_explanation true (some text) = some (strip text)
kept_explanation _ _ = none

-- A grade in a closed term needs an explanation and a further permission.
unfoldable pub require_open_or_explained :
    TenantActorContext → Bool → Option String → GradingAction (Unit {0})
require_open_or_explained context false explanation = pure tt
require_open_or_explained context true explanation = do
  require (not (is_blank_or_none explanation)) grading_rule
  authorize_grading context grading_closed_term_revise

abbrev pub new_grade :
    TenantActorContext
    → GradeTarget
    → GradingScale
    → Decimal
    → Bool
    → Option String
    → GradeInputs
    → GradeOutcome
    → FinalGrade
new_grade context target scale raw_score after_closure explanation inputs outcome = record {
  id = inputs.new_id;
  organization_id = context.organization_id;
  student_academic_enrollment_id = target.student_academic_enrollment_id;
  course_enrollment_id = target.course_enrollment_id;
  course_offering_id = target.course_offering_id;
  course_id = target.course_id;
  term_id = target.term_id;
  grading_scale_id = scale.id;
  raw_score = raw_score;
  symbol = outcome.symbol;
  credits_attempted = target.credits;
  credits_earned = earned outcome.passing target.credits;
  grade_points = outcome.grade_points;
  gpa_contribution = contribution outcome.grade_points target.credits;
  revision_number = 0;
  recorded_by = context.subject_id;
  recorded_at = inputs.now;
  updated_at = inputs.now;
  recorded_after_term_closure = after_closure;
  recording_explanation = kept_explanation after_closure explanation;
}

-- `_record_final_grade`, once the guard of the term is held and its closure is known
unfoldable pub record_in_term :
    GradingPorts
    → TenantActorContext
    → GradeTarget
    → Uuid
    → Decimal
    → Option String
    → GradeInputs
    → Bool
    → GradingAction FinalGrade
record_in_term ports context target grading_scale_id raw_score explanation inputs after_closure = do
  require_open_or_explained context after_closure explanation
  scale ← require_scale context grading_scale_id
  outcome ← lift (resolve_score scale raw_score)
  grade ← lift (
      check_final_grade
        (new_grade context target scale raw_score after_closure explanation inputs outcome))
  log_event ports (
      grade_event context grade.id "grading.final_grade.record_requested" after_closure
        "intent_recorded")
  store (create_final_grade grade)
  log_event ports
      (grade_event context grade.id "grading.final_grade.recorded" after_closure "succeeded")
  pure grade

-- `_record_final_grade`
unfoldable pub record_for_target :
    GradingPorts
    → TenantActorContext
    → GradeTarget
    → Uuid
    → Decimal
    → Option String
    → GradeInputs
    → GradingAction FinalGrade
record_for_target ports context target grading_scale_id raw_score explanation inputs = do
  lift (ports.hold_grade_write context.organization_id target.term_id)
  record_in_term ports context target grading_scale_id raw_score explanation inputs
      (ports.is_term_closed context.organization_id target.term_id)

unfoldable pub record_final_grade :
    GradingPorts
    → TenantActorContext
    → Uuid
    → Uuid
    → Decimal
    → Option String
    → GradeInputs
    → GradingAction FinalGrade
record_final_grade ports context course_enrollment_id grading_scale_id raw_score explanation
      inputs =
    do
      authorize_grading context grading_final_record
      target ←
          lift (
            or_raise (ports.get_grade_target context.organization_id course_enrollment_id)
              not_found)
      record_for_target ports context target grading_scale_id raw_score explanation inputs
