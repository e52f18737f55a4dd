-- ===== src/Grading/Closure.antt =====
-- Who may write a grade, and when its term is closed: the permissions of
-- backend/src/grading/application/service.py.
pub mod Served
use mathlib.Core.Path.{subst}
use onwlms.Prelude.{
  Bool, Option, String, ap, arith, contains, false, inl, inr, nat_eq, not, pair_eq, refl, string_eq,
  sym, true, ℕ, ◌≡◌, ◌⊎◌,
}
use onwlms.Prelude.Dict.{insert}
use onwlms.Core.{AppError, TenantActorContext, Uuid, authorization, grading_rule, ok}
use onwlms.Core.Decimal.{Decimal}
use onwlms.Core.Exec.{pure, require, ◌>>=◌, ◌>>◌}
use onwlms.Core.Exec.Relates.{Relates, Relates-ask-bind, Relates-lift-bind, Relates-require-bind}
use onwlms.Core.Text.{is_blank_or_none}
use onwlms.Grading.Grades.{FinalGrade, GradeRevision, GradeTarget}
use onwlms.Grading.Ledger.Calls.{check_final_grade-same, told-IsQuiet}
use onwlms.Grading.Repository.{
  GradingRepository, create_final_grade, revise_final_grade, save_scale,
}
use onwlms.Grading.Rules.{OnRepository, bind-quiet, log_event-IsQuiet, of_store, quiet-bind}
use onwlms.Grading.Scales.{GradeOutcome, GradingScale, kind_eq}
use onwlms.Grading.Service.{
  GradeInputs, GradingAction, GradingPorts, grade_event, grading_closed_term_revise,
  grading_final_record, grading_final_revise, log_event, store,
}
use onwlms.Grading.Service.Record.{
  new_grade, record_for_target, record_in_term, require_open_or_explained,
}
use onwlms.Grading.Service.Revise.{authorize_revision, revise_in_term, revise_loaded, revised_grade}

module _ (ports : GradingPorts) (context : TenantActorContext) where
  -- The actor may write grades, and those of a closed term if the term of the grade is closed.
  pub record MayWrite (term_id : Uuid) : Type 0 where
    pub grades :
        (contains grading_final_record context.permissions ≡ true)
        ⊎ (contains grading_final_revise context.permissions ≡ true)
    pub closed_term :
        (ports.is_term_closed context.organization_id term_id ≡ false)
        ⊎ (contains grading_closed_term_revise context.permissions ≡ true)

  -- Nothing is written to the grades, or one grade that the actor may write.
  abbrev pub Authorized : GradingRepository → GradingRepository → Type 0
  Authorized r r' =
      (r'.grades ≡ r.grades)
      ⊎ ((g : FinalGrade) × (r'.grades ≡ insert (g.organization_id, g.id) g r.grades)
          × MayWrite g.term_id)

  pub Authorized-refl : (r : GradingRepository) → Authorized r r
  Authorized-refl r = inl refl

  abbrev pub IsAuthorized : {A : Type 0} → GradingAction A → Type 0
  IsAuthorized m = Relates (OnRepository Authorized) m

  pub create-Authorized :
      (g : FinalGrade) (r r' : GradingRepository)
      → MayWrite g.term_id
      → create_final_grade g r ≡ ok r'
      → Authorized r r'
  unfolding create_final_grade
  create-Authorized g r r' may h = inr (g, ground (arith, h), may)

  pub revise-Authorized :
      (g : FinalGrade) (expected : ℕ) (v : GradeRevision) (r r' : GradingRepository)
      → MayWrite g.term_id
      → revise_final_grade g expected v r ≡ ok r'
      → Authorized r r'
  unfolding revise_final_grade
  revise-Authorized g expected v r r' may h = inr (g, ground (arith, h), may)

  pub save_scale-Authorized :
      (s : GradingScale) (r r' : GradingRepository)
      → save_scale ports.casefold s r ≡ ok r'
      → Authorized r r'
  unfolding save_scale
  save_scale-Authorized s r r' h = inl (ground (arith, h))

  -- What holds of a closed term once its guard has passed.
  abbrev IsPassed : Bool → Type 0
  IsPassed closed =
      (closed ≡ false) ⊎ (contains grading_closed_term_revise context.permissions ≡ true)

  require_both-bind :
      {B : Type 0} (p q : Bool) (e e' : AppError) (f : Unit {0} → GradingAction B)
      → (q ≡ true → IsAuthorized (f tt))
      → IsAuthorized ((require p e >> require q e') >>= f)
  unfolding ◌>>=◌
  require_both-bind true true e e' f k = record { at = λ w. (k refl).at w }
  require_both-bind true false e e' f k = record { at = λ w. inl refl }
  require_both-bind false q e e' f k = record { at = λ w. inl refl }

  explained-bind :
      {B : Type 0} (closed : Bool) (why : Option String) (f : Unit {0} → GradingAction B)
      → (IsPassed closed → IsAuthorized (f tt))
      → IsAuthorized (require_open_or_explained context closed why >>= f)
  unfolding require_open_or_explained ◌>>=◌
  explained-bind false why f k = record { at = λ w. (k (inl refl)).at w }
  explained-bind true why f k =
      require_both-bind (not (is_blank_or_none why))
        (contains grading_closed_term_revise context.permissions) grading_rule authorization f
        (λ h. k (inr h))

  revision-bind :
      {B : Type 0} (closed : Bool) (f : Unit {0} → GradingAction B)
      → (IsPassed closed → IsAuthorized (f tt))
      → IsAuthorized (authorize_revision context closed >>= f)
  unfolding ◌>>=◌
  revision-bind false f k = record { at = λ w. (k (inl refl)).at w }
  revision-bind true f k =
      Relates-require-bind (λ w. inl refl) (contains grading_closed_term_revise context.permissions)
        authorization f (λ h. k (inr h))

  record_in_term-Authorized :
      (target : GradeTarget) (scale_id : Uuid) (score : Decimal) (why : Option String)
      (inputs : GradeInputs)
      → contains grading_final_record context.permissions ≡ true
      → IsAuthorized (
          record_in_term ports context target scale_id score why inputs
            (ports.is_term_closed context.organization_id target.term_id))
  unfolding record_in_term
  record_in_term-Authorized target scale_id score why inputs allowed =
      explained-bind closed why _ λ passed.
        Relates-ask-bind (λ w. inl refl) _ _
          λ s.
            Relates-lift-bind (λ w. inl refl) _ _
              λ o resolved.
                Relates-lift-bind (λ w. inl refl) _ _
                  λ g checked.
                    quiet-bind Authorized Authorized-refl _ _ (log_event-IsQuiet ports _)
                      λ _. created s o g passed (check_final_grade-same _ g checked)
    where
      closed : Bool
      closed = ports.is_term_closed context.organization_id target.term_id

      created :
          (s : GradingScale) (o : GradeOutcome) (g : FinalGrade)
          → IsPassed (ports.is_term_closed context.organization_id target.term_id)
          → g
            ≡ new_grade context target s score
                (ports.is_term_closed context.organization_id target.term_id)
                why
                inputs
                o
          → IsAuthorized (do
            store (create_final_grade g)
            log_event ports (
                grade_event context g.id "grading.final_grade.recorded"
                  (ports.is_term_closed context.organization_id target.term_id)
                  "succeeded")
            pure g)
      created s o g passed e =
          bind-quiet Authorized Authorized-refl (store (create_final_grade g)) _
            (of_store Authorized Authorized-refl _ (λ r r'. create-Authorized g r r' (
              subst MayWrite (sym (ap (λ (g : FinalGrade). g.term_id) e))
                (record { grades = inl allowed; closed_term = passed }))))
            (λ _. told-IsQuiet ports _ g)

  pub record_for_target-Authorized :
      (target : GradeTarget) (scale_id : Uuid) (score : Decimal) (why : Option String)
      (inputs : GradeInputs)
      → contains grading_final_record context.permissions ≡ true
      → IsAuthorized (record_for_target ports context target scale_id score why inputs)
  unfolding record_for_target
  record_for_target-Authorized target scale_id score why inputs allowed =
      Relates-lift-bind (λ w. inl refl) _ _
        λ _ _. record_in_term-Authorized target scale_id score why inputs allowed

  revise_in_term-Authorized :
      (current : FinalGrade) (score : Decimal) (why : String) (scale_id : Option Uuid)
      (inputs : GradeInputs)
      → contains grading_final_revise context.permissions ≡ true
      → IsAuthorized (
          revise_in_term ports context current score why scale_id inputs
            (ports.is_term_closed context.organization_id current.term_id))
  unfolding revise_in_term
  revise_in_term-Authorized current score why scale_id inputs allowed =
      revision-bind (ports.is_term_closed context.organization_id current.term_id) _ λ passed.
        Relates-ask-bind (λ w. inl refl) _ _
          λ s.
            Relates-lift-bind (λ w. inl refl) _ _
              λ o resolved.
                Relates-lift-bind (λ w. inl refl) _ _
                  λ g checked.
                    Relates-lift-bind (λ w. inl refl) _ _
                      λ v written.
                        quiet-bind Authorized Authorized-refl _ _ (log_event-IsQuiet ports _)
                          λ _. amended g v (may s o g passed (check_final_grade-same _ g checked))
    where
      may :
          (s : GradingScale) (o : GradeOutcome) (g : FinalGrade)
          → IsPassed (ports.is_term_closed context.organization_id current.term_id)
          → g ≡ revised_grade current s score inputs.now o
          → MayWrite g.term_id
      may s o g passed e =
          subst MayWrite (sym (ap (λ (g : FinalGrade). g.term_id) e))
            (record { grades = inr allowed; closed_term = passed })

      amended :
          (g : FinalGrade) (v : GradeRevision)
          → MayWrite g.term_id
          → IsAuthorized (do
            store (revise_final_grade g current.revision_number v)
            log_event ports (
                grade_event context g.id "grading.final_grade.revised"
                  (ports.is_term_closed context.organization_id current.term_id)
                  "succeeded")
            pure g)
      amended g v may =
          bind-quiet Authorized Authorized-refl
            (store (revise_final_grade g current.revision_number v)) _
            (of_store Authorized Authorized-refl _
              (λ r r'. revise-Authorized g current.revision_number v r r' may))
            (λ _. told-IsQuiet ports _ g)

  pub revise_loaded-Authorized :
      (current : FinalGrade) (score : Decimal) (why : String) (scale_id : Option Uuid)
      (inputs : GradeInputs)
      → contains grading_final_revise context.permissions ≡ true
      → IsAuthorized (revise_loaded ports context current score why scale_id inputs)
  unfolding revise_loaded
  revise_loaded-Authorized current score why scale_id inputs allowed =
      Relates-lift-bind (λ w. inl refl) _ _
        λ _ _. revise_in_term-Authorized current score why scale_id inputs allowed
