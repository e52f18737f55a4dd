-- ===== src/Grading/Ledger/Creates.antt =====
-- The writes of the grading repository keep its ledger.
use mathlib.Core.Path.{subst}
use mathlib.Core.List.{append-nil}
use onwlms.Prelude.{
  String, [], ap, arith, inl, inr, nat_eq, none, pair_beq_iff, pair_eq, refl, some, string_eq, sym,
  ◌∙◌, ◌≡◌,
}
use onwlms.Prelude.Dict.{insert, lookup, lookup-insert, lookup-insert-cases}
use onwlms.Core.{Uuid, ok}
use onwlms.Grading.Grades.{FinalGrade, check_final_grade}
use onwlms.Grading.Ledger.{Chain, Grows, Grows-refl, IsLedger, Snapshot, history, state_of}
use onwlms.Grading.Repository.{GradingRepository, create_final_grade, save_scale}
use onwlms.Grading.Scales.{GradingScale, kind_eq}

-- A write that leaves the ledger one, and every stored grade with its past.
abbrev pub KeepsLedger : GradingRepository → GradingRepository → Type 0
KeepsLedger r r' = IsLedger r → IsLedger r' × Grows r r'

pub KeepsLedger-refl : (r : GradingRepository) → KeepsLedger r r
KeepsLedger-refl r l = (l, Grows-refl r)

-- A scale changes nothing of the grades.
pub save_scale-KeepsLedger :
    (casefold : String → String) (s : GradingScale) (r r' : GradingRepository)
    → save_scale casefold s r ≡ ok r'
    → KeepsLedger r r'
unfolding save_scale
save_scale-KeepsLedger casefold s r r' h l =
    let e : r' ≡ record r { scales = insert (s.organization_id, s.id) s r.scales } =
      ground (arith, h) in
    subst (λ q. IsLedger q × Grows r q) (sym e)
      (record { keyed = l.keyed; chained = l.chained; fresh = l.fresh; indexed = l.indexed }, kept)
  where
    kept : Grows r (record r { scales = insert (s.organization_id, s.id) s r.scales })
    kept org id g h = record {
      now = g;
      is_stored = h;
      recorded_by = refl;
      recorded_at = refl;
      closure = refl;
      recording_explanation = refl;
      enrollment = refl;
      attempted = refl;
      added = [];
      extended = sym (append-nil _);
    }

module _ (g : FinalGrade) (r : GradingRepository) where
  abbrev created : GradingRepository
  created = record r {
    grades = insert (g.organization_id, g.id) g r.grades;
    course_enrollment_index =
        insert (g.organization_id, g.course_enrollment_id) g.id r.course_enrollment_index;
  }

  create-new :
      (r' : GradingRepository)
      → create_final_grade g r ≡ ok r'
      → (lookup (g.organization_id, g.id) r.grades ≡ none)
        × (lookup (g.organization_id, g.course_enrollment_id) r.course_enrollment_index ≡ none)
        × (r' ≡ created)
  unfolding create_final_grade
  create-new r' h = (ground (arith, h), ground (arith, h), ground (arith, h))

module _ (g : FinalGrade) (r : GradingRepository) (l : IsLedger r)
    (checked : check_final_grade g ≡ ok g) (first : g.revision_number ≡ 0)
    (no_grade : lookup (g.organization_id, g.id) r.grades ≡ none)
    (no_index : lookup (g.organization_id, g.course_enrollment_id) r.course_enrollment_index
      ≡ none) where
  created-indexed :
      (org id : Uuid) (u : FinalGrade)
      → lookup (org, id) (created g r).grades ≡ some u
      → lookup (org, u.course_enrollment_id) (created g r).course_enrollment_index ≡ some id
  created-indexed org id u h =
      elim (lookup-insert-cases (g.organization_id, g.id) (org, id) g u r.grades h) [
        | inl (same, e) ↦ ground (
          arith,
          same,
          e,
          lookup-insert (g.organization_id, g.course_enrollment_id) (org, u.course_enrollment_id)
              g.id r.course_enrollment_index,
          pair_beq_iff (g.organization_id, g.course_enrollment_id) (org, u.course_enrollment_id),
        )
        | inr (other, old) ↦ ground (
          arith,
          l.indexed org id u old,
          lookup-insert (g.organization_id, g.course_enrollment_id) (org, u.course_enrollment_id)
              g.id r.course_enrollment_index,
          pair_beq_iff (g.organization_id, g.course_enrollment_id) (org, u.course_enrollment_id),
        )
      ]

  created-chained :
      (org id : Uuid) (u : FinalGrade)
      → lookup (org, id) (created g r).grades ≡ some u
      → (s : Snapshot) × Chain 0 s (history org id r) u.revision_number (state_of u)
  created-chained org id u h =
      elim (lookup-insert-cases (g.organization_id, g.id) (org, id) g u r.grades h) [
        | inl (same, e) ↦ (
          state_of u,
          subst (λ vs. Chain 0 (state_of u) vs u.revision_number (state_of u))
              (sym (l.fresh org id (ap (λ k. lookup k r.grades) same ∙ no_grade)))
              (sym (ap (λ (u : FinalGrade). u.revision_number) e ∙ first), refl),
        )
        | inr (other, old) ↦ l.chained org id u old
      ]

  created-IsLedger : IsLedger (created g r)
  created-IsLedger = record {
    keyed = λ org id u h.
        elim (lookup-insert-cases (g.organization_id, g.id) (org, id) g u r.grades h) [
          | inl (same, e) ↦ (
            ground (arith, same, e),
            ground (arith, same, e),
            subst (λ u. check_final_grade u ≡ ok u) (sym e) checked,
          )
          | inr (other, old) ↦ l.keyed org id u old
        ];
    chained = created-chained;
    fresh = λ org id h.
        l.fresh org id
          (ground (arith, lookup-insert (g.organization_id, g.id) (org, id) g r.grades, h));
    indexed = created-indexed;
  }

  created-Grows : Grows r (created g r)
  created-Grows org id u h = record {
    now = u;
    is_stored = ground (
      arith,
      lookup-insert (g.organization_id, g.id) (org, id) g r.grades,
      pair_beq_iff (g.organization_id, g.id) (org, id),
    );
    recorded_by = refl;
    recorded_at = refl;
    closure = refl;
    recording_explanation = refl;
    enrollment = refl;
    attempted = refl;
    added = [];
    extended = sym (append-nil _);
  }

pub create-KeepsLedger :
    (g : FinalGrade) (r r' : GradingRepository)
    → check_final_grade g ≡ ok g
    → g.revision_number ≡ 0
    → create_final_grade g r ≡ ok r'
    → KeepsLedger r r'
create-KeepsLedger g r r' checked first h l =
    let (no_grade, no_index, e) = create-new g r r' h in
    subst (λ q. IsLedger q × Grows r q) (sym e)
      (
        created-IsLedger g r l checked first no_grade no_index,
        created-Grows g r l checked first no_grade no_index,
      )
