-- ===== src/Grading/Ledger.antt =====
-- What the grading repository keeps: grades with the whole history of their revisions.
pub mod Creates
pub mod Amends
pub mod Calls
pub mod Methods
pub mod Served
use mathlib.Core.List.{append-nil, append_assoc}
use onwlms.Prelude.{
  List, Option, String, [], ap, filter, nat_eq, none, pair_eq, refl, some, string_eq, sym, ℕ, ◌++◌,
  ◌+◌, ◌∙◌, ◌∷◌, ◌≡◌,
}
use onwlms.Prelude.Dict.{lookup, values}
use onwlms.Core.{Uuid, ok}
use onwlms.Core.Decimal.{Decimal}
use onwlms.Grading.Grades.{FinalGrade, GradeRevision, check_final_grade}
use onwlms.Grading.Repository.{GradingRepository, is_revision_of, no_grades}

-- The official result, as a revision preserves it.
abbrev pub Snapshot : Type 0
Snapshot = Decimal × String × Decimal × Option Decimal × Option Decimal

abbrev pub state_of : FinalGrade → Snapshot
state_of g = (g.raw_score, g.symbol, g.credits_earned, g.grade_points, g.gpa_contribution)

abbrev pub before_of : GradeRevision → Snapshot
before_of v = (
  v.previous_raw_score, v.previous_symbol, v.previous_credits_earned, v.previous_grade_points,
  v.previous_gpa_contribution,
)

abbrev pub after_of : GradeRevision → Snapshot
after_of v = (
  v.replacement_raw_score, v.replacement_symbol, v.replacement_credits_earned,
  v.replacement_grade_points, v.replacement_gpa_contribution,
)

-- Revisions numbered one by one, each of which begins where the one before has ended.
abbrev pub Chain : ℕ → Snapshot → List GradeRevision → ℕ → Snapshot → Type 0
Chain n s [] m t = (n ≡ m) × (s ≡ t)
Chain n s (v ∷ vs) m t =
    (v.revision_number ≡ n + 1) × (before_of v ≡ s) × Chain (n + 1) (after_of v) vs m t

pub Chain-snoc :
    (vs : List GradeRevision) (v : GradeRevision) (n m : ℕ) (s t : Snapshot)
    → Chain n s vs m t
    → v.revision_number ≡ m + 1
    → before_of v ≡ t
    → Chain n s (vs ++ v ∷ []) (m + 1) (after_of v)
Chain-snoc [] v n m s t (same, at) e f =
    (e ∙ ap (λ k. k + 1) (sym same), f ∙ sym at, (ap (λ k. k + 1) same, refl))
Chain-snoc (u ∷ vs) v n m s t (number, start, rest) e f =
    (number, start, Chain-snoc vs v (n + 1) m (after_of u) t rest e f)

-- The revisions of one grade, in the order in which they were stored.
abbrev pub history : Uuid → Uuid → GradingRepository → List GradeRevision
history org id r = filter (is_revision_of org id) (values r.revisions)

pub record IsLedger (r : GradingRepository) : Type 0 where
  -- Each grade stands under its own key and has passed its checks.
  pub keyed :
      (org id : Uuid) (g : FinalGrade)
      → lookup (org, id) r.grades ≡ some g
      → (g.organization_id ≡ org) × (g.id ≡ id) × (check_final_grade g ≡ ok g)
  -- Its history leads from a first result to the current one.
  pub chained :
      (org id : Uuid) (g : FinalGrade)
      → lookup (org, id) r.grades ≡ some g
      → (s : Snapshot) × Chain 0 s (history org id r) g.revision_number (state_of g)
  -- No history without a grade.
  pub fresh : (org id : Uuid) → lookup (org, id) r.grades ≡ none → history org id r ≡ []
  -- A course enrollment has one grade, and the index leads to it.
  pub indexed :
      (org id : Uuid) (g : FinalGrade)
      → lookup (org, id) r.grades ≡ some g
      → lookup (org, g.course_enrollment_id) r.course_enrollment_index ≡ some id

pub no_grades-IsLedger : IsLedger no_grades
unfolding lookup
no_grades-IsLedger = record {
  keyed = λ org id g h. cc;
  chained = λ org id g h. cc;
  fresh = λ org id h. refl;
  indexed = λ org id g h. cc;
}

-- What a write keeps of a stored grade: its identity, the evidence of its first recording, and the
-- revisions so far, to which others may be added.
pub record Kept (r r' : GradingRepository) (org id : Uuid) (g : FinalGrade) : Type 0 where
  pub now : FinalGrade
  pub is_stored : lookup (org, id) r'.grades ≡ some now
  pub recorded_by : now.recorded_by ≡ g.recorded_by
  pub recorded_at : now.recorded_at ≡ g.recorded_at
  pub closure : now.recorded_after_term_closure ≡ g.recorded_after_term_closure
  pub recording_explanation : now.recording_explanation ≡ g.recording_explanation
  pub enrollment : now.course_enrollment_id ≡ g.course_enrollment_id
  pub attempted : now.credits_attempted ≡ g.credits_attempted
  pub added : List GradeRevision
  pub extended : history org id r' ≡ history org id r ++ added

abbrev pub Grows : GradingRepository → GradingRepository → Type 0
Grows r r' =
    (org id : Uuid) (g : FinalGrade) → lookup (org, id) r.grades ≡ some g → Kept r r' org id g

pub Grows-refl : (r : GradingRepository) → Grows r r
Grows-refl r org id g h = record {
  now = g;
  is_stored = h;
  recorded_by = refl;
  recorded_at = refl;
  closure = refl;
  recording_explanation = refl;
  enrollment = refl;
  attempted = refl;
  added = [];
  extended = sym (append-nil _);
}

pub Grows-trans : (r s t : GradingRepository) → Grows r s → Grows s t → Grows r t
Grows-trans r s t f g org id a h =
    let k = f org id a h in
    let l = g org id k.now k.is_stored in
    record {
      now = l.now;
      is_stored = l.is_stored;
      recorded_by = l.recorded_by ∙ k.recorded_by;
      recorded_at = l.recorded_at ∙ k.recorded_at;
      closure = l.closure ∙ k.closure;
      recording_explanation = l.recording_explanation ∙ k.recording_explanation;
      enrollment = l.enrollment ∙ k.enrollment;
      attempted = l.attempted ∙ k.attempted;
      added = k.added ++ l.added;
      extended =
          l.extended
          ∙ ap (λ vs. vs ++ l.added) k.extended
          ∙ append_assoc (history org id r) k.added l.added;
    }
