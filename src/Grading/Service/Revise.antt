-- ===== src/Grading/Service/Revise.antt =====
-- `revise_final_grade` and the reads of grades of backend/src/grading/application/service.py.
use onwlms.Prelude.{
  Bool, List, Option, String, false, map, nat_eq, none, not, pair_eq, some, string_eq, true, ℕ, ◌+◌,
  ◌==◌,
}
use onwlms.Core.{
  TenantActorContext, Uuid, grade_revision_conflict, grading_rule, not_found, or_raise,
}
use onwlms.Core.Decimal.{Decimal}
use onwlms.Core.Exec.{ask, gets, lift, pure, require, ◌>>=◌, ◌>>◌}
use onwlms.Core.Text.{is_blank}
use onwlms.Core.Time.{DateTime}
use onwlms.Grading.Grades.{
  FinalGrade, FinalGradeHistory, GpaSummary, GradeRevision, TranscriptRecord, calculate_gpa_summary,
  check_final_grade, check_revision, transcript_record,
}
use onwlms.Grading.Repository.{
  get_final_grade, list_grade_revisions, list_student_final_grades, revise_final_grade,
}
use onwlms.Grading.Scales.{GradeOutcome, GradingScale, kind_eq, resolve_score}
use onwlms.Grading.Service.{
  GradeInputs, GradingAction, GradingPorts, authorize_grading, contribution, earned, grade_event,
  grading_closed_term_revise, grading_final_revise, grading_transcript_read, log_event,
  require_scale, store,
}

-- A revision in a closed term needs a further permission.
abbrev pub authorize_revision : TenantActorContext → Bool → GradingAction (Unit {0})
authorize_revision context false = pure tt
authorize_revision context true = authorize_grading context grading_closed_term_revise

abbrev or_current : Option Uuid → Uuid → Uuid
or_current none scale_id = scale_id
or_current (some given) scale_id = given

-- `replace(current, ...)`, before its `__post_init__`
abbrev pub revised_grade :
    FinalGrade → GradingScale → Decimal → DateTime → GradeOutcome → FinalGrade
revised_grade current scale raw_score revised_at outcome = record current {
  grading_scale_id = scale.id;
  raw_score = raw_score;
  symbol = outcome.symbol;
  credits_earned = earned outcome.passing current.credits_attempted;
  grade_points = outcome.grade_points;
  gpa_contribution = contribution outcome.grade_points current.credits_attempted;
  revision_number = current.revision_number + 1;
  updated_at = revised_at;
}

abbrev pub new_revision :
    TenantActorContext → FinalGrade → FinalGrade → String → GradeInputs → Bool → GradeRevision
new_revision context current revised explanation inputs after_closure = record {
  id = inputs.new_id;
  organization_id = context.organization_id;
  final_grade_id = current.id;
  revision_number = current.revision_number + 1;
  previous_raw_score = current.raw_score;
  previous_symbol = current.symbol;
  previous_credits_earned = current.credits_earned;
  previous_grade_points = current.grade_points;
  previous_gpa_contribution = current.gpa_contribution;
  replacement_raw_score = revised.raw_score;
  replacement_symbol = revised.symbol;
  replacement_credits_earned = revised.credits_earned;
  replacement_grade_points = revised.grade_points;
  replacement_gpa_contribution = revised.gpa_contribution;
  explanation = explanation;
  revised_by = context.subject_id;
  revised_at = inputs.now;
  after_term_closure = after_closure;
}

-- `_revise_final_grade`, once the guard of the term is held and its closure is known
unfoldable pub revise_in_term :
    GradingPorts
    → TenantActorContext
    → FinalGrade
    → Decimal
    → String
    → Option Uuid
    → GradeInputs
    → Bool
    → GradingAction FinalGrade
revise_in_term ports context current raw_score explanation grading_scale_id inputs after_closure =
    do
      authorize_revision context after_closure
      scale ← require_scale context (or_current grading_scale_id current.grading_scale_id)
      outcome ← lift (resolve_score scale raw_score)
      revised ← lift (check_final_grade (revised_grade current scale raw_score inputs.now outcome))
      revision ←
          lift
            (check_revision (new_revision context current revised explanation inputs after_closure))
      log_event ports (
          grade_event context revised.id "grading.final_grade.revision_requested" after_closure
            "intent_recorded")
      store (revise_final_grade revised current.revision_number revision)
      log_event ports
          (grade_event context revised.id "grading.final_grade.revised" after_closure "succeeded")
      pure revised

-- `_revise_final_grade`
unfoldable pub revise_loaded :
    GradingPorts
    → TenantActorContext
    → FinalGrade
    → Decimal
    → String
    → Option Uuid
    → GradeInputs
    → GradingAction FinalGrade
revise_loaded ports context current raw_score explanation grading_scale_id inputs = do
  lift (ports.hold_grade_write context.organization_id current.term_id)
  revise_in_term ports context current raw_score explanation grading_scale_id inputs
      (ports.is_term_closed context.organization_id current.term_id)

-- `expected is not None and current.revision_number != expected`
abbrev is_stale : Option ℕ → FinalGrade → Bool
is_stale none current = false
is_stale (some expected) current = not (current.revision_number == expected)

unfoldable pub service_revise_final_grade :
    GradingPorts
    → TenantActorContext
    → Uuid
    → Decimal
    → String
    → Option Uuid
    → Option ℕ
    → GradeInputs
    → GradingAction FinalGrade
service_revise_final_grade ports context final_grade_id raw_score explanation grading_scale_id
      expected inputs =
    do
      authorize_grading context grading_final_revise
      require (not (is_blank explanation)) grading_rule
      current ← ask (λ w.
          or_raise (get_final_grade context.organization_id final_grade_id w.repository) not_found)
      require (not (is_stale expected current)) grade_revision_conflict
      revise_loaded ports context current raw_score explanation grading_scale_id inputs

unfoldable pub grade_history : TenantActorContext → Uuid → GradingAction FinalGradeHistory
grade_history context final_grade_id = do
  authorize_grading context grading_final_revise
  grade ← ask (λ w.
      or_raise (get_final_grade context.organization_id final_grade_id w.repository) not_found)
  revisions ← gets (λ w. list_grade_revisions context.organization_id grade.id w.repository)
  pure (record {
    final_grade_id = grade.id;
    recorded_by = grade.recorded_by;
    recorded_at = grade.recorded_at;
    recorded_after_term_closure = grade.recorded_after_term_closure;
    recording_explanation = grade.recording_explanation;
    revisions = revisions;
  })

unfoldable pub revision_history : TenantActorContext → Uuid → GradingAction (List GradeRevision)
revision_history context final_grade_id = do
  history ← grade_history context final_grade_id
  pure history.revisions

unfoldable pub transcript : TenantActorContext → Uuid → GradingAction (List TranscriptRecord)
transcript context student_academic_enrollment_id = do
  authorize_grading context grading_transcript_read
  grades ← gets (λ w.
      list_student_final_grades context.organization_id student_academic_enrollment_id w.repository)
  pure (map transcript_record grades)

unfoldable pub gpa_summary : TenantActorContext → Uuid → GradingAction GpaSummary
gpa_summary context student_academic_enrollment_id = do
  authorize_grading context grading_transcript_read
  grades ← gets (λ w.
      list_student_final_grades context.organization_id student_academic_enrollment_id w.repository)
  pure (calculate_gpa_summary grades)
