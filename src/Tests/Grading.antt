-- ===== src/Tests/Grading.antt =====
-- A small grade book, for the theorems on backend/src/grading.
use onwlms.Prelude.{
  Bool, List, String, [], false, map, nat_eq, none, pair_eq, refl, some, string_eq, true, ℕ, ◌↔◌,
  ◌∷◌, ◌≡◌, ◌⊎◌,
}
use onwlms.Prelude.Dict.{values}
use onwlms.Prelude.Int.{pos}
use onwlms.Core.{TenantActorContext, err, grading_rule, ok}
use onwlms.Core.Decimal.{Decimal, at_most, finite, is_below, is_finite, whole, ◌*d◌}
use onwlms.Core.Text.{is_blank}
use onwlms.Core.Time.{DateTime, TzInfo}
use onwlms.Grading.Closure.{Authorized}
use onwlms.Grading.Closure.Served.{serve_grading-Authorized}
use onwlms.Grading.Grades.{FinalGrade, GradeTarget, calculate_gpa_summary, check_final_grade}
use onwlms.Grading.Ledger.{Grows, IsLedger, no_grades-IsLedger}
use onwlms.Grading.Ledger.Served.{
  GradingMethod, serve_grading, serve_gradings, serve_gradings-Grows, serve_gradings-IsLedger,
}
use onwlms.Grading.Repository.{no_grades}
use onwlms.Grading.Resolved.{Resolves, resolve_score_error, resolve_score_iff}
use onwlms.Grading.Scales.{
  GradeBand, GradeOutcome, GradingScale, GradingScaleKind, check_scale, highest, highest_of,
  kind_eq, lowest, resolve_score,
}
use onwlms.Grading.Service.{
  GradingPorts, GradingWorld, configure_scale, grading_closed_term_revise, grading_final_record,
  grading_final_revise, grading_scale_manage,
}
use onwlms.Grading.Service.Record.{new_grade, record_final_grade, record_for_target}
use onwlms.Grading.Summary.{IsSound, calculate_gpa_summary_bounds}

abbrev noon : DateTime
noon = record { instant = 500; tzinfo = TzInfo.offset (pos 0) }

abbrev five_band : ℕ → String → Bool → ℕ → GradeBand
five_band threshold symbol passing points = record {
  minimum_score = whole threshold;
  symbol = symbol;
  passing = passing;
  grade_points = some (whole points);
}

abbrev five_points : GradingScale
five_points = record {
  id = 3;
  organization_id = 1;
  name = "Five";
  kind = GradingScaleKind.five_point;
  minimum_score = whole 1;
  maximum_score = whole 5;
  bands = five_band 1 "2" false 0 ∷ five_band 3 "3" true 2 ∷ five_band 5 "5" true 4 ∷ [];
}

abbrev as_written : String → String
as_written s = s

five_points_checked : check_scale as_written five_points ≡ ok five_points
unfolding check_scale at_most lowest is_blank
five_points_checked = refl

abbrev three : GradeOutcome
three = record { symbol = "3"; passing = true; grade_points = some (whole 2) }

-- A score of 4.5 is in the band from 3.
abbrev four_and_half : Decimal
four_and_half = finite (pos 45) 1

resolve_score_iff_example :
    (resolve_score five_points four_and_half ≡ ok three) ↔ Resolves five_points four_and_half three
resolve_score_iff_example =
    resolve_score_iff as_written five_points four_and_half three five_points_checked

resolves : resolve_score five_points four_and_half ≡ ok three
unfolding resolve_score highest_of highest at_most
resolves = refl

resolve_score_error_example : (resolve_score five_points (whole 6) ≡ err grading_rule) ↔ (
    (grading_rule ≡ grading_rule)
    × ((is_finite (whole 6) ≡ false)
        ⊎ (is_below (whole 6) five_points.minimum_score ≡ true)
        ⊎ (is_below five_points.maximum_score (whole 6) ≡ true)))
resolve_score_error_example =
    resolve_score_error as_written five_points (whole 6) grading_rule five_points_checked

abbrev registrar : TenantActorContext
registrar = record {
  subject_id = 8;
  organization_id = 1;
  membership_id = 9;
  correlation_id = "c";
  permissions =
      grading_scale_manage ∷ grading_final_record ∷ grading_final_revise
      ∷ grading_closed_term_revise ∷ [];
}

abbrev algebra : GradeTarget
algebra = record {
  organization_id = 1;
  student_academic_enrollment_id = 20;
  course_enrollment_id = 21;
  course_offering_id = 22;
  term_id = 23;
  course_id = 24;
  credits = whole 6;
}

abbrev grading_ports : GradingPorts
grading_ports = record {
  get_grade_target = λ o e. some algebra;
  get_grade_target_for_participant = λ o c p. some algebra;
  is_term_closed = λ o t. true;
  hold_grade_write = λ o t. ok tt;
  record_event = λ e. ok tt;
  casefold = as_written;
  decimal = λ s. none;
}

abbrev empty_world : GradingWorld
empty_world = record {
  repository = no_grades;
  evidence = record { pending = []; acceptances = []; rejections = [] };
  events = [];
}

abbrev late_record : GradingMethod
late_record =
    GradingMethod.record_grade 21 3 four_and_half (some "late") (record { now = noon; new_id = 30 })

-- A grade is recorded after the end of the term, and revised.
abbrev first_calls : List (TenantActorContext × GradingMethod)
first_calls = (registrar, GradingMethod.scale five_points) ∷ (registrar, late_record) ∷ []

abbrev recount : List (TenantActorContext × GradingMethod)
recount =
    (
      registrar,
      GradingMethod.revise 30 (whole 5) "recount" none (some 0)
          (record { now = noon; new_id = 31 }),
    )
    ∷ []

abbrev graded : GradingWorld
graded = serve_gradings grading_ports first_calls empty_world

serve_gradings-IsLedger_example : IsLedger graded.repository
serve_gradings-IsLedger_example =
    serve_gradings-IsLedger grading_ports first_calls empty_world no_grades-IsLedger

abbrev seen : FinalGrade → String × ℕ
seen g = (g.symbol, g.revision_number)

-- The current grade of the enrollment has been revised once.
revised_once :
    map seen (values (serve_gradings grading_ports recount graded).repository.grades)
    ≡ ("5", 1) ∷ []
unfolding serve_gradings serve_grading configure_scale record_final_grade record_for_target
    onwlms.Grading.Service.Revise.service_revise_final_grade onwlms.Core.Exec.◌>>=◌ is_blank
    onwlms.Grading.Repository.get_final_grade onwlms.Prelude.Dict.lookup
    onwlms.Grading.Service.Record.record_in_term
    onwlms.Grading.Service.Record.require_open_or_explained onwlms.Grading.Repository.get_scale
    onwlms.Grading.Repository.save_scale onwlms.Prelude.Dict.insert resolve_score at_most highest_of
    check_final_grade highest ◌*d◌ onwlms.Core.Text.strip onwlms.Grading.Grades.check_revision
    onwlms.Grading.Repository.create_final_grade onwlms.Grading.Repository.revise_final_grade
    onwlms.Grading.Service.Revise.revise_in_term onwlms.Grading.Service.Revise.revise_loaded
revised_once = refl

serve_gradings-Grows_example :
    Grows graded.repository (serve_gradings grading_ports recount graded).repository
serve_gradings-Grows_example =
    serve_gradings-Grows grading_ports recount graded
      (serve_gradings-IsLedger grading_ports first_calls empty_world no_grades-IsLedger)

abbrev with_scale : GradingWorld
with_scale = serve_grading grading_ports registrar (GradingMethod.scale five_points) empty_world

serve_grading-Authorized_example :
    Authorized grading_ports registrar with_scale.repository
      (serve_grading grading_ports registrar late_record with_scale).repository
serve_grading-Authorized_example =
    serve_grading-Authorized grading_ports registrar late_record with_scale

abbrev algebra_grade : FinalGrade
algebra_grade =
    record (new_grade registrar algebra five_points four_and_half true (some "late")
      (record { now = noon; new_id = 30 }) three) { recording_explanation = some "late" }

algebra_grade-IsSound : IsSound algebra_grade
unfolding check_final_grade at_most is_blank ◌*d◌
algebra_grade-IsSound = record { checked = refl; attempted_finite = refl; earned_finite = refl }

calculate_gpa_summary_bounds_example :
    let s = calculate_gpa_summary (algebra_grade ∷ []) in
    (at_most s.credits_earned s.credits_attempted ≡ true)
    × (at_most s.gpa_credits_attempted s.credits_attempted ≡ true)
calculate_gpa_summary_bounds_example =
    calculate_gpa_summary_bounds (algebra_grade ∷ []) (algebra_grade-IsSound, tt)
