-- ===== src/Grading/Closure/Served.antt =====
-- A call of `OfficialGradingService` of backend/src/grading/application/service.py writes at most
-- one grade, and only with the permissions for it.
use onwlms.Prelude.{
  Option, String, ap, contains, inl, nat_eq, none, pair_eq, refl, some, string_eq, sym, true, ℕ,
  ◌≡◌,
}
use onwlms.Core.{Result, TenantActorContext, Uuid}
use onwlms.Core.Decimal.{Decimal}
use onwlms.Core.Exec.{pure, ◌>>◌}
use onwlms.Core.Exec.Relates.{
  Relates-ask-bind, Relates-gets-bind, Relates-lift-bind, Relates-pure, Relates-require-bind,
}
use onwlms.Grading.Closure.{
  Authorized, Authorized-refl, IsAuthorized, record_for_target-Authorized, revise_loaded-Authorized,
  save_scale-Authorized,
}
use onwlms.Grading.Grades.{FinalGrade, GradeTarget}
use onwlms.Grading.Ledger.Calls.{told-IsQuiet}
use onwlms.Grading.Ledger.Methods.{reject-IsQuiet}
use onwlms.Grading.Ledger.Served.{GradingMethod, serve_grading}
use onwlms.Grading.Repository.{Evidence, GradingRepository, save_scale}
use onwlms.Grading.Rules.{
  IsQuiet, OnRepository, bind-quiet, log_event-IsQuiet, of_store, quiet-bind,
  settle_evidence-IsQuiet,
}
use onwlms.Grading.Scales.{GradingScale, GradingScaleTemplate, kind_eq}
use onwlms.Grading.Service.{
  GradeInputs, GradingEvent, GradingPorts, GradingWorld, configure_scale, configure_template,
  grading_final_record, log_event, settle_evidence, store,
}
use onwlms.Grading.Service.External.{accept_external_evidence, grade_from_evidence, or_empty}
use onwlms.Grading.Service.Record.{record_final_grade}
use onwlms.Grading.Service.Revise.{service_revise_final_grade}

module _ (ports : GradingPorts) (context : TenantActorContext) where
  unwritten : (w : GradingWorld) → OnRepository (Authorized ports context) w w
  unwritten w = Authorized-refl ports context w.repository

  configure_scale-Authorized :
      (s : GradingScale) → IsAuthorized ports context (configure_scale ports context s)
  unfolding configure_scale
  configure_scale-Authorized s = Relates-require-bind unwritten _ _ _ λ _.
      Relates-require-bind unwritten _ _ _ λ _.
        of_store (Authorized ports context) (Authorized-refl ports context) _
          (save_scale-Authorized ports context s)

  configure_template-Authorized :
      (id : Uuid) (name : String) (t : GradingScaleTemplate)
      → IsAuthorized ports context (configure_template ports context id name t)
  unfolding configure_template
  configure_template-Authorized id name t = Relates-require-bind unwritten _ _ _ λ _.
      Relates-lift-bind unwritten _ _ λ s built.
        bind-quiet (Authorized ports context) (Authorized-refl ports context)
          (store (save_scale ports.casefold s)) _
          (of_store (Authorized ports context) (Authorized-refl ports context) _
            (save_scale-Authorized ports context s))
          (λ _. Relates-pure (λ w. refl) s)

  record_final_grade-Authorized :
      (enrollment scale_id : Uuid) (score : Decimal) (why : Option String) (inputs : GradeInputs)
      → IsAuthorized ports context
          (record_final_grade ports context enrollment scale_id score why inputs)
  unfolding record_final_grade
  record_final_grade-Authorized enrollment scale_id score why inputs =
      Relates-require-bind unwritten _ _ _ λ allowed.
        Relates-lift-bind unwritten _ _ λ target found.
          record_for_target-Authorized ports context target scale_id score why inputs allowed

  revise-Authorized_call :
      (id : Uuid) (score : Decimal) (why : String) (scale_id : Option Uuid) (expected : Option ℕ)
      (inputs : GradeInputs)
      → IsAuthorized ports context
          (service_revise_final_grade ports context id score why scale_id expected inputs)
  unfolding service_revise_final_grade
  revise-Authorized_call id score why scale_id expected inputs =
      Relates-require-bind unwritten _ _ _ λ allowed. Relates-require-bind unwritten _ _ _ λ _.
        Relates-ask-bind unwritten _ _ λ current.
          Relates-require-bind unwritten _ _ _
            λ _. revise_loaded-Authorized ports context current score why scale_id inputs allowed

  from_evidence-Authorized :
      (target : GradeTarget) (scale_id : Uuid) (score : Decimal) (why : Option String)
      (inputs : GradeInputs) (o : Option FinalGrade)
      → contains grading_final_record context.permissions ≡ true
      → IsAuthorized ports context
          (grade_from_evidence ports context target scale_id score why inputs o)
  unfolding grade_from_evidence
  from_evidence-Authorized target scale_id score why inputs none allowed =
      record_for_target-Authorized ports context target scale_id score why inputs allowed
  from_evidence-Authorized target scale_id score why inputs (some current) _ =
      Relates-require-bind unwritten _ _ _ λ allowed. Relates-require-bind unwritten _ _ _ λ _.
        revise_loaded-Authorized ports context current score (or_empty why) (some scale_id) inputs
          allowed

  -- What the two calls on evidence do after a grade is written, or before.
  settled-IsQuiet :
      {A : Type 0} (f : Evidence → Result Evidence) (e : GradingEvent) (a : A)
      → IsQuiet (do settle_evidence f; log_event ports e; pure a)
  settled-IsQuiet f e a =
      quiet-bind (λ r r'. r ≡ r') (λ r. refl) _ _ (settle_evidence-IsQuiet f)
        λ _. told-IsQuiet ports e a

  accept-Authorized :
      (id scale_id : Uuid) (why : Option String) (inputs : GradeInputs)
      → IsAuthorized ports context (accept_external_evidence ports context id scale_id why inputs)
  unfolding accept_external_evidence
  accept-Authorized id scale_id why inputs = Relates-require-bind unwritten _ _ _ λ allowed.
      Relates-ask-bind unwritten _ _ λ evidence. Relates-lift-bind unwritten _ _ λ target found.
        Relates-lift-bind unwritten _ _ λ score parsed.
          quiet-bind (Authorized ports context) (Authorized-refl ports context) _ _
            (log_event-IsQuiet ports _)
            λ _. Relates-gets-bind unwritten _ _ λ current.
              bind-quiet (Authorized ports context) (Authorized-refl ports context)
                (grade_from_evidence ports context target scale_id score why inputs current) _
                (from_evidence-Authorized target scale_id score why inputs current allowed)
                (λ grade. settled-IsQuiet _ _ grade)

-- A call, whether it returns or raises, leaves the grades as they are, or it writes one grade. Then
-- the actor may record or revise grades, and if the term of the grade is closed, the actor has the
-- permission for closed terms too.
pub serve_grading-Authorized :
    (ports : GradingPorts) (context : TenantActorContext) (m : GradingMethod) (w : GradingWorld)
    → Authorized ports context w.repository (serve_grading ports context m w).repository
unfolding serve_grading
serve_grading-Authorized ports context (GradingMethod.scale s) w =
    (configure_scale-Authorized ports context s).at w
serve_grading-Authorized ports context (GradingMethod.template id name t) w =
    (configure_template-Authorized ports context id name t).at w
serve_grading-Authorized ports context (GradingMethod.record_grade e s score why inputs) w =
    (record_final_grade-Authorized ports context e s score why inputs).at w
serve_grading-Authorized ports context (GradingMethod.revise id score why s expected inputs) w =
    (revise-Authorized_call ports context id score why s expected inputs).at w
serve_grading-Authorized ports context (GradingMethod.accept_evidence id s why inputs) w =
    (accept-Authorized ports context id s why inputs).at w
serve_grading-Authorized ports context (GradingMethod.reject_evidence id reason) w =
    inl (
      sym
        (ap (λ (r : GradingRepository). r.grades) ((reject-IsQuiet ports context id reason).at w)))
