-- ===== src/Grading/Ledger/Methods.antt =====
-- Each method of `OfficialGradingService` of backend/src/grading/application/service.py keeps the
-- ledger of grades.
use mathlib.Core.Path.{subst₂}
use onwlms.Prelude.{
  Option, Option-cases, String, arith, inl, inr, nat_eq, none, pair_eq, refl, some, string_eq, sym,
  ℕ, ◌≡◌,
}
use onwlms.Prelude.Dict.{lookup}
use onwlms.Core.{TenantActorContext, Uuid, not_found, ok, or_raise}
use onwlms.Core.Decimal.{Decimal}
use onwlms.Core.Exec.{pure, ◌>>=◌, ◌>>◌}
use onwlms.Core.Exec.Relates.{
  Relates, Relates-ask-bind, Relates-ask-known, Relates-lift-bind, Relates-pure,
  Relates-require-bind, Relates-weaken,
}
use onwlms.Grading.Grades.{FinalGrade, GradeTarget}
use onwlms.Grading.Ledger.Calls.{
  Amends, Keeps, record_for_target-Keeps, revise_loaded-Amends, same_world, told-IsQuiet,
}
use onwlms.Grading.Ledger.Creates.{KeepsLedger, KeepsLedger-refl, save_scale-KeepsLedger}
use onwlms.Grading.Repository.{
  GradingRepository, get_final_grade, get_final_grade_for_course_enrollment, record_acceptance,
  save_scale,
}
use onwlms.Grading.Rules.{
  IsQuiet, OnRepository, bind-quiet, gets_known, log_event-IsQuiet, of_quiet, of_store, quiet-bind,
  settle_evidence-IsQuiet,
}
use onwlms.Grading.Scales.{GradingScale, GradingScaleTemplate, kind_eq}
use onwlms.Grading.Service.{
  GradeInputs, GradingPorts, GradingWorld, configure_scale, configure_template, log_event,
  resolution_event, settle_evidence, store,
}
use onwlms.Grading.Service.External.{
  accept_external_evidence, grade_from_evidence, or_empty, reject_external_evidence,
}
use onwlms.Grading.Service.Record.{record_final_grade}
use onwlms.Grading.Service.Revise.{service_revise_final_grade}

stored_grade :
    (org id : Uuid) (g : FinalGrade) (r : GradingRepository)
    → or_raise (get_final_grade org id r) not_found ≡ ok g
    → lookup (org, id) r.grades ≡ some g
unfolding get_final_grade
stored_grade org id g r got = ground (arith, got)

-- What the index leads to is a stored grade.
indexed_grade :
    (org enrollment : Uuid) (g : FinalGrade) (r : GradingRepository)
    → get_final_grade_for_course_enrollment org enrollment r ≡ some g
    → (id : Uuid) × (lookup (org, id) r.grades ≡ some g)
unfolding get_final_grade_for_course_enrollment
indexed_grade org enrollment g r got =
    elim (Option-cases (lookup (org, enrollment) r.course_enrollment_index)) [
      | inl e ↦ absurd (ground (arith, got, e))
      | inr (id, e) ↦ (id, ground (arith, got, e))
    ]

module _ (ports : GradingPorts) (context : TenantActorContext) where
  pub configure_scale-Keeps : (s : GradingScale) → Keeps (configure_scale ports context s)
  unfolding configure_scale
  configure_scale-Keeps s = Relates-require-bind same_world _ _ _ λ _.
      Relates-require-bind same_world _ _ _
        λ _. of_store KeepsLedger KeepsLedger-refl _ (save_scale-KeepsLedger ports.casefold s)

  pub configure_template-Keeps :
      (id : Uuid) (name : String) (t : GradingScaleTemplate)
      → Keeps (configure_template ports context id name t)
  unfolding configure_template
  configure_template-Keeps id name t = Relates-require-bind same_world _ _ _ λ _.
      Relates-lift-bind same_world _ _ λ s built.
        bind-quiet KeepsLedger KeepsLedger-refl (store (save_scale ports.casefold s)) _
          (of_store KeepsLedger KeepsLedger-refl _ (save_scale-KeepsLedger ports.casefold s))
          (λ _. Relates-pure (λ w. refl) s)

  pub record_final_grade-Keeps :
      (enrollment scale_id : Uuid) (score : Decimal) (why : Option String) (inputs : GradeInputs)
      → Keeps (record_final_grade ports context enrollment scale_id score why inputs)
  unfolding record_final_grade
  record_final_grade-Keeps enrollment scale_id score why inputs =
      Relates-require-bind same_world _ _ _ λ _.
        Relates-lift-bind same_world _ _
          λ target found. record_for_target-Keeps ports context target scale_id score why inputs

  -- A revision of what was read under the actor's organization keeps the ledger.
  read-Amends :
      (id : Uuid) (current : FinalGrade) (r r' : GradingRepository)
      → Amends ports context current r r'
      → lookup (context.organization_id, id) r.grades ≡ some current
      → KeepsLedger r r'
  read-Amends id current r r' a stored l =
      let (own, same, _) = l.keyed context.organization_id id current stored in
      a own (subst₂ (λ o i. lookup (o, i) r.grades ≡ some current) (sym own) (sym same) stored) l

  pub revise-Keeps :
      (id : Uuid) (score : Decimal) (why : String) (scale_id : Option Uuid) (expected : Option ℕ)
      (inputs : GradeInputs)
      → Keeps (service_revise_final_grade ports context id score why scale_id expected inputs)
  unfolding service_revise_final_grade
  revise-Keeps id score why scale_id expected inputs = Relates-require-bind same_world _ _ _ λ _.
      Relates-require-bind same_world _ _ _ λ _.
        Relates-ask-known {R = OnRepository KeepsLedger} same_world _ _ λ current.
          Relates-weaken _ (λ w w' a got. found current w w' a got)
            (Relates-require-bind (λ w own stored. KeepsLedger-refl w.repository) _ _ _
              λ _. revise_loaded-Amends ports context current score why scale_id inputs)
    where
      found :
          (current : FinalGrade) (w w' : GradingWorld)
          → OnRepository (Amends ports context current) w w'
          → or_raise (get_final_grade context.organization_id id w.repository) not_found
            ≡ ok current
          → OnRepository KeepsLedger w w'
      found current w w' a got =
          read-Amends id current w.repository w'.repository a
            (stored_grade context.organization_id id current w.repository got)

  from_evidence-Keeps :
      (target : GradeTarget) (scale_id : Uuid) (score : Decimal) (why : Option String)
      (inputs : GradeInputs) (o : Option FinalGrade)
      → Relates
          (λ w w'.
            get_final_grade_for_course_enrollment context.organization_id
                target.course_enrollment_id w.repository
              ≡ o
            → OnRepository KeepsLedger w w')
          (grade_from_evidence ports context target scale_id score why inputs o)
  unfolding grade_from_evidence
  from_evidence-Keeps target scale_id score why inputs none =
      Relates-weaken _ (λ w w' k _. k)
        (record_for_target-Keeps ports context target scale_id score why inputs)
  from_evidence-Keeps target scale_id score why inputs (some current) =
      Relates-weaken _
        (λ w w' a got.
          let (id, stored) =
            indexed_grade context.organization_id target.course_enrollment_id current w.repository
              got in
          read-Amends id current w.repository w'.repository a stored)
        (Relates-require-bind (λ w own stored. KeepsLedger-refl w.repository) _ _ _
          λ _.
            Relates-require-bind (λ w own stored. KeepsLedger-refl w.repository) _ _ _
              λ _.
                revise_loaded-Amends ports context current score (or_empty why) (some scale_id)
                  inputs)

  pub accept-Keeps :
      (id scale_id : Uuid) (why : Option String) (inputs : GradeInputs)
      → Keeps (accept_external_evidence ports context id scale_id why inputs)
  unfolding accept_external_evidence
  accept-Keeps id scale_id why inputs = Relates-require-bind same_world _ _ _ λ _.
      Relates-ask-bind same_world _ _ λ evidence. Relates-lift-bind same_world _ _ λ target found.
        Relates-lift-bind same_world _ _ λ score parsed.
          quiet-bind KeepsLedger KeepsLedger-refl _ _ (log_event-IsQuiet ports _)
            λ _. gets_known KeepsLedger KeepsLedger-refl _ _ λ current. settled target score current
    where
      settled :
          (target : GradeTarget) (score : Decimal) (current : Option FinalGrade)
          → Relates
              (λ w w'.
                get_final_grade_for_course_enrollment context.organization_id
                    target.course_enrollment_id w.repository
                  ≡ current
                → OnRepository KeepsLedger w w')
              (do
                grade ← grade_from_evidence ports context target scale_id score why inputs current
                settle_evidence
                    (record_acceptance context.organization_id id grade.id context.subject_id)
                log_event ports (
                    resolution_event context id "grading.external_evidence.accepted" "succeeded"
                      none)
                pure grade)
      settled target score current =
          bind-quiet
            (λ r r'.
              get_final_grade_for_course_enrollment context.organization_id
                  target.course_enrollment_id r
                ≡ current
              → KeepsLedger r r')
            (λ r _. KeepsLedger-refl r)
            (grade_from_evidence ports context target scale_id score why inputs current) _
            (from_evidence-Keeps target scale_id score why inputs current)
            (λ grade.
              quiet-bind (λ r r'. r ≡ r') (λ r. refl) _ _ (settle_evidence-IsQuiet _)
                λ _. told-IsQuiet ports _ grade)

  pub reject-IsQuiet :
      (id : Uuid) (reason : String) → IsQuiet (reject_external_evidence ports context id reason)
  unfolding reject_external_evidence
  reject-IsQuiet id reason =
      Relates-require-bind (λ w. refl) _ _ _
        λ _.
          Relates-require-bind (λ w. refl) _ _ _
            λ _.
              Relates-ask-bind (λ w. refl) _ _
                λ evidence.
                  quiet-bind (λ r r'. r ≡ r') (λ r. refl) _ _ (log_event-IsQuiet ports _)
                    λ _.
                      quiet-bind (λ r r'. r ≡ r') (λ r. refl) _ _ (settle_evidence-IsQuiet _)
                        λ _. log_event-IsQuiet ports _

  pub reject-Keeps :
      (id : Uuid) (reason : String) → Keeps (reject_external_evidence ports context id reason)
  reject-Keeps id reason = of_quiet KeepsLedger KeepsLedger-refl _ (reject-IsQuiet id reason)
