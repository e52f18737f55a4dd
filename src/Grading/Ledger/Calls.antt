-- ===== src/Grading/Ledger/Calls.antt =====
-- The recording and the revision of a grade, as OfficialGradingService of
-- backend/src/grading/application/service.py does them, keep the ledger.
use mathlib.Core.Path.{subst}
use onwlms.Prelude.{
  Bool, Option, String, ap, arith, contains, false, nat_eq, pair_eq, refl, some, string_eq, sym,
  true, ◌∙◌, ◌≡◌,
}
use onwlms.Prelude.Dict.{lookup}
use onwlms.Core.{AppError, TenantActorContext, Uuid, authorization, ok}
use onwlms.Core.Decimal.{Decimal}
use onwlms.Core.Exec.{pure, require, ◌>>=◌, ◌>>◌}
use onwlms.Core.Exec.Relates.{
  Relates, Relates-ask-bind, Relates-lift-bind, Relates-pure, Relates-require-bind,
}
use onwlms.Grading.Grades.{
  FinalGrade, GradeRevision, GradeTarget, check_final_grade, check_revision,
}
use onwlms.Grading.Ledger.Amends.{IsAmendment}
use onwlms.Grading.Ledger.Amends.Stored.{revise-KeepsLedger}
use onwlms.Grading.Ledger.Creates.{KeepsLedger, KeepsLedger-refl, create-KeepsLedger}
use onwlms.Grading.Repository.{GradingRepository, create_final_grade, revise_final_grade}
use onwlms.Grading.Rules.{
  IsQuiet, OnRepository, bind-quiet, log_event-IsQuiet, of_store, quiet-bind,
}
use onwlms.Grading.Scales.{GradeOutcome, GradingScale, kind_eq}
use onwlms.Grading.Service.{
  GradeInputs, GradingAction, GradingEvent, GradingPorts, GradingWorld, grade_event,
  grading_closed_term_revise, log_event, store,
}
use onwlms.Grading.Service.Record.{
  new_grade, record_for_target, record_in_term, require_open_or_explained,
}
use onwlms.Grading.Service.Revise.{
  authorize_revision, new_revision, revise_in_term, revise_loaded, revised_grade,
}

abbrev pub Keeps : {A : Type 0} → GradingAction A → Type 0
Keeps m = Relates (OnRepository KeepsLedger) m

pub same_world : (w : GradingWorld) → OnRepository KeepsLedger w w
same_world w = KeepsLedger-refl w.repository

pub check_final_grade-same : (g h : FinalGrade) → check_final_grade g ≡ ok h → h ≡ g
unfolding check_final_grade
check_final_grade-same g h e = ground (arith, e)

check_revision-same : (v u : GradeRevision) → check_revision v ≡ ok u → u ≡ v
unfolding check_revision
check_revision-same v u e = ground (arith, e)

require-IsQuiet : (b : Bool) (e : AppError) → IsQuiet (require b e)
unfolding ◌>>=◌
require-IsQuiet true e = record { at = λ w. refl }
require-IsQuiet false e = record { at = λ w. refl }

require_open_or_explained-IsQuiet :
    (context : TenantActorContext) (closed : Bool) (why : Option String)
    → IsQuiet (require_open_or_explained context closed why)
unfolding require_open_or_explained
require_open_or_explained-IsQuiet context false why = Relates-pure (λ w. refl) tt
require_open_or_explained-IsQuiet context true why =
    Relates-require-bind (λ w. refl) _ _ _
      λ _. require-IsQuiet (contains grading_closed_term_revise context.permissions) authorization

authorize_revision-IsQuiet :
    (context : TenantActorContext) (closed : Bool) → IsQuiet (authorize_revision context closed)
unfolding ◌>>=◌
authorize_revision-IsQuiet context false = record { at = λ w. refl }
authorize_revision-IsQuiet context true =
    require-IsQuiet (contains grading_closed_term_revise context.permissions) authorization

-- The last steps of a write of a grade: the event that tells of it, and the answer.
pub told-IsQuiet :
    {A : Type 0} (ports : GradingPorts) (e : GradingEvent) (a : A)
    → IsQuiet (log_event ports e >>= λ _. pure a)
told-IsQuiet ports e a =
    quiet-bind (λ r r'. r ≡ r') (λ r. refl) (log_event ports e) (λ _. pure a)
      (log_event-IsQuiet ports e) (λ _. Relates-pure (λ w. refl) a)

module _ (ports : GradingPorts) (context : TenantActorContext) where
  record_in_term-Keeps :
      (target : GradeTarget) (scale_id : Uuid) (score : Decimal) (why : Option String)
      (inputs : GradeInputs) (closed : Bool)
      → Keeps (record_in_term ports context target scale_id score why inputs closed)
  unfolding record_in_term
  record_in_term-Keeps target scale_id score why inputs closed =
      quiet-bind KeepsLedger KeepsLedger-refl _ _
        (require_open_or_explained-IsQuiet context closed why)
        λ _. Relates-ask-bind same_world _ _ λ s. Relates-lift-bind same_world _ _ λ o resolved.
          Relates-lift-bind same_world _ _ λ g checked.
            quiet-bind KeepsLedger KeepsLedger-refl _ _ (log_event-IsQuiet ports _)
              λ _. created s o g (check_final_grade-same _ g checked) checked
    where
      created :
          (s : GradingScale) (o : GradeOutcome) (g : FinalGrade)
          → g ≡ new_grade context target s score closed why inputs o
          → check_final_grade (new_grade context target s score closed why inputs o) ≡ ok g
          → Keeps (do
            store (create_final_grade g)
            log_event ports
                (grade_event context g.id "grading.final_grade.recorded" closed "succeeded")
            pure g)
      created s o g e checked =
          bind-quiet KeepsLedger KeepsLedger-refl (store (create_final_grade g)) _
            (of_store KeepsLedger KeepsLedger-refl _ (λ r r'.
              create-KeepsLedger g r r' (ap check_final_grade e ∙ checked)
                (ap (λ (g : FinalGrade). g.revision_number) e)))
            (λ _. told-IsQuiet ports _ g)

  pub record_for_target-Keeps :
      (target : GradeTarget) (scale_id : Uuid) (score : Decimal) (why : Option String)
      (inputs : GradeInputs)
      → Keeps (record_for_target ports context target scale_id score why inputs)
  unfolding record_for_target
  record_for_target-Keeps target scale_id score why inputs =
      Relates-lift-bind same_world _ _
        λ _ _. record_in_term-Keeps target scale_id score why inputs _

  -- A revision of a grade that is stored, in the actor's organization.
  abbrev pub Amends : FinalGrade → GradingRepository → GradingRepository → Type 0
  Amends current r r' =
      current.organization_id ≡ context.organization_id
      → lookup (current.organization_id, current.id) r.grades ≡ some current
      → KeepsLedger r r'

  new_revision-IsAmendment :
      (current grade : FinalGrade) (v : GradeRevision) (s : GradingScale) (score : Decimal)
      (why : String) (inputs : GradeInputs) (o : GradeOutcome) (closed : Bool)
      → current.organization_id ≡ context.organization_id
      → check_final_grade (revised_grade current s score inputs.now o) ≡ ok grade
      → check_revision (new_revision context current grade why inputs closed) ≡ ok v
      → IsAmendment current grade v
  new_revision-IsAmendment current grade v s score why inputs o closed own checked written =
      let e = check_final_grade-same _ grade checked in
      let f = check_revision-same _ v written in
      subst (IsAmendment current grade) (sym f) (record {
        same_organization = ap (λ (g : FinalGrade). g.organization_id) e;
        same_grade = ap (λ (g : FinalGrade). g.id) e;
        enrollment = ap (λ (g : FinalGrade). g.course_enrollment_id) e;
        attempted = ap (λ (g : FinalGrade). g.credits_attempted) e;
        recorded_by = ap (λ (g : FinalGrade). g.recorded_by) e;
        recorded_at = ap (λ (g : FinalGrade). g.recorded_at) e;
        closure = ap (λ (g : FinalGrade). g.recorded_after_term_closure) e;
        recording_explanation = ap (λ (g : FinalGrade). g.recording_explanation) e;
        next = ap (λ (g : FinalGrade). g.revision_number) e;
        organization = sym own;
        grade_id = refl;
        number = refl;
        starts = refl;
        ends = refl;
        checked = ap check_final_grade e ∙ checked;
      })

  revise_in_term-Amends :
      (current : FinalGrade) (score : Decimal) (why : String) (scale_id : Option Uuid)
      (inputs : GradeInputs) (closed : Bool)
      → Relates
          (OnRepository (Amends current))
          (revise_in_term ports context current score why scale_id inputs closed)
  unfolding revise_in_term
  revise_in_term-Amends current score why scale_id inputs closed =
      quiet-bind (Amends current) unchanged _ _ (authorize_revision-IsQuiet context closed) λ _.
        Relates-ask-bind (λ w. unchanged w.repository) _ _
          λ s.
            Relates-lift-bind (λ w. unchanged w.repository) _ _
              λ o resolved.
                Relates-lift-bind (λ w. unchanged w.repository) _ _
                  λ g checked.
                    Relates-lift-bind (λ w. unchanged w.repository) _ _
                      λ v written.
                        quiet-bind (Amends current) unchanged _ _ (log_event-IsQuiet ports _)
                          λ _. amended s o g v checked written
    where
      unchanged : (r : GradingRepository) → Amends current r r
      unchanged r own stored = KeepsLedger-refl r

      amended :
          (s : GradingScale) (o : GradeOutcome) (g : FinalGrade) (v : GradeRevision)
          → check_final_grade (revised_grade current s score inputs.now o) ≡ ok g
          → check_revision (new_revision context current g why inputs closed) ≡ ok v
          → Relates (OnRepository (Amends current)) (do
            store (revise_final_grade g current.revision_number v)
            log_event ports
                (grade_event context g.id "grading.final_grade.revised" closed "succeeded")
            pure g)
      amended s o g v checked written =
          bind-quiet (Amends current) unchanged
            (store (revise_final_grade g current.revision_number v)) _
            (of_store (Amends current) unchanged _ (λ r r' h own stored.
              revise-KeepsLedger current g v current.revision_number r r' stored
                (new_revision-IsAmendment current g v s score why inputs o closed own checked
                  written)
                h))
            (λ _. told-IsQuiet ports _ g)

  pub revise_loaded-Amends :
      (current : FinalGrade) (score : Decimal) (why : String) (scale_id : Option Uuid)
      (inputs : GradeInputs)
      → Relates
          (OnRepository (Amends current))
          (revise_loaded ports context current score why scale_id inputs)
  unfolding revise_loaded
  revise_loaded-Amends current score why scale_id inputs =
      Relates-lift-bind (λ w own stored. KeepsLedger-refl w.repository) _ _
        λ _ _. revise_in_term-Amends current score why scale_id inputs _
