-- ===== src/Grading/Service/External.antt =====
-- `accept_external_evidence` and `reject_external_evidence` of
-- backend/src/grading/application/service.py.
use onwlms.Prelude.{Option, String, nat_eq, none, not, pair_eq, some, string_eq}
use onwlms.Core.{TenantActorContext, Uuid, grading_rule, not_found, or_raise}
use onwlms.Core.Decimal.{Decimal}
use onwlms.Core.Exec.{ask, gets, lift, pure, require, ◌>>=◌, ◌>>◌}
use onwlms.Core.Text.{is_blank, is_blank_or_none, strip}
use onwlms.Grading.Grades.{FinalGrade, GradeTarget, parse_external_score}
use onwlms.Grading.Repository.{
  get_final_grade_for_course_enrollment, get_pending_evidence, record_acceptance, record_rejection,
}
use onwlms.Grading.Service.{
  GradeInputs, GradingAction, GradingPorts, authorize_grading,
  external_evidence_rejected_reason_code, grading_final_record, grading_final_revise, log_event,
  resolution_event, settle_evidence,
}
use onwlms.Grading.Service.Record.{record_for_target}
use onwlms.Grading.Service.Revise.{revise_loaded}

abbrev pub or_empty : Option String → String
or_empty none = ""
or_empty (some text) = text

-- The grade that accepted evidence gives: the first one, or a revision of the current one.
unfoldable pub grade_from_evidence :
    GradingPorts
    → TenantActorContext
    → GradeTarget
    → Uuid
    → Decimal
    → Option String
    → GradeInputs
    → Option FinalGrade
    → GradingAction FinalGrade
grade_from_evidence ports context target grading_scale_id raw_score explanation inputs none =
    record_for_target ports context target grading_scale_id raw_score explanation inputs
grade_from_evidence ports context target grading_scale_id raw_score explanation inputs
      (some current) =
    do
      authorize_grading context grading_final_revise
      require (not (is_blank_or_none explanation)) grading_rule
      revise_loaded ports context current raw_score (or_empty explanation) (some grading_scale_id)
          inputs

unfoldable pub accept_external_evidence :
    GradingPorts
    → TenantActorContext
    → Uuid
    → Uuid
    → Option String
    → GradeInputs
    → GradingAction FinalGrade
accept_external_evidence ports context evidence_id grading_scale_id explanation inputs = do
  authorize_grading context grading_final_record
  evidence ← ask (λ w.
      or_raise (get_pending_evidence context.organization_id evidence_id w.evidence) not_found)
  target ← lift (
      or_raise
        (ports.get_grade_target_for_participant context.organization_id evidence.course_offering_id
          evidence.student_person_id)
        grading_rule)
  raw_score ← lift (parse_external_score ports.decimal evidence.grade_value)
  log_event ports (
      resolution_event context evidence_id "grading.external_evidence.acceptance_requested"
        "intent_recorded" none)
  current ← gets (λ w.
      get_final_grade_for_course_enrollment context.organization_id target.course_enrollment_id
        w.repository)
  grade ←
      grade_from_evidence ports context target grading_scale_id raw_score explanation inputs current
  settle_evidence
      (record_acceptance context.organization_id evidence_id grade.id context.subject_id)
  log_event ports
      (resolution_event context evidence_id "grading.external_evidence.accepted" "succeeded" none)
  pure grade

unfoldable pub reject_external_evidence :
    GradingPorts → TenantActorContext → Uuid → String → GradingAction (Unit {0})
reject_external_evidence ports context evidence_id reason = do
  authorize_grading context grading_final_record
  require (not (is_blank reason)) grading_rule
  evidence ← ask (λ w.
      or_raise (get_pending_evidence context.organization_id evidence_id w.evidence) not_found)
  log_event ports (
      resolution_event context evidence_id "grading.external_evidence.rejection_requested"
        "intent_recorded" (some (strip reason)))
  settle_evidence (
      record_rejection context.organization_id evidence_id external_evidence_rejected_reason_code
        context.subject_id)
  log_event ports (
      resolution_event context evidence_id "grading.external_evidence.rejected" "succeeded"
        (some (strip reason)))
