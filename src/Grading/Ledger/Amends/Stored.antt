-- ===== src/Grading/Ledger/Amends/Stored.antt =====
-- A grade that is revised, and every other grade, before and after `revise_final_grade`.
use mathlib.Core.List.{append-nil}
use mathlib.Core.Path.{subst}
use onwlms.Prelude.{
  Bool-cases, [], ap, arith, inl, inr, nat_beq_iff, nat_eq, none, pair_beq, pair_beq_iff, pair_eq,
  refl, some, string_eq, sym, ℕ, ◌&&◌, ◌==◌, ◌∙◌, ◌∷◌, ◌≡◌, ◌⊎◌,
}
use onwlms.Prelude.Dict.{lookup, lookup-insert}
use onwlms.Core.{Uuid, ok}
use onwlms.Grading.Grades.{FinalGrade, GradeRevision}
use onwlms.Grading.Ledger.{Grows, IsLedger, Kept}
use onwlms.Grading.Ledger.Amends.{
  IsAmendment, IsPlace, amended, amended-IsLedger, other_history, own_history, revise-new,
  stored_at,
}
use onwlms.Grading.Ledger.Creates.{KeepsLedger}
use onwlms.Grading.Repository.{GradingRepository, revise_final_grade}

module _ (current grade : FinalGrade) (v : GradeRevision) (r : GradingRepository) (l : IsLedger r)
    (stored : lookup (current.organization_id, current.id) r.grades ≡ some current)
    (a : IsAmendment current grade v)
    (no_revision : lookup (v.organization_id, v.id) r.revisions ≡ none) where
  -- The grade that is stored where `current` was.
  grade_at_place :
      (org id : Uuid)
      → IsPlace current grade v r l stored a no_revision org id
      → lookup (org, id) (amended grade v r).grades ≡ some grade
  grade_at_place org id (o, i) = ground (
    arith,
    a.same_organization,
    a.same_grade,
    o,
    i,
    lookup-insert (grade.organization_id, grade.id) (org, id) grade r.grades,
    pair_beq_iff (grade.organization_id, grade.id) (org, id),
  )

  IsPlace-or_not :
      (org id : Uuid)
      → IsPlace current grade v r l stored a no_revision org id
        ⊎ (IsPlace current grade v r l stored a no_revision org id → ⊥)
  IsPlace-or_not org id = elim (Bool-cases (org == current.organization_id && id == current.id)) [
    | inl here ↦ inl (
      ground (arith, here, nat_beq_iff org current.organization_id),
      ground (arith, here, nat_beq_iff id current.id),
    )
    | inr elsewhere ↦ inr (λ (o, i). ground (
      arith,
      elsewhere,
      o,
      i,
      nat_beq_iff org current.organization_id,
      nat_beq_iff id current.id,
    ))
  ]

  Kept-elsewhere :
      (org id : Uuid) (u : FinalGrade)
      → (IsPlace current grade v r l stored a no_revision org id → ⊥)
      → lookup (org, id) r.grades ≡ some u
      → Kept r (amended grade v r) org id u
  Kept-elsewhere org id u other h = record {
    now = u;
    is_stored = elim (Bool-cases (pair_beq (grade.organization_id, grade.id) (org, id))) [
      | inr apart ↦ ground (
        arith,
        h,
        apart,
        lookup-insert (grade.organization_id, grade.id) (org, id) grade r.grades,
      )
      | inl same ↦
          let e = (pair_beq_iff (grade.organization_id, grade.id) (org, id)).0 same in
          absurd (
            other
              (sym (ap (λ k. k.0) e) ∙ a.same_organization, sym (ap (λ k. k.1) e) ∙ a.same_grade))
    ];
    recorded_by = refl;
    recorded_at = refl;
    closure = refl;
    recording_explanation = refl;
    enrollment = refl;
    attempted = refl;
    added = [];
    extended =
        other_history current grade v r l stored a no_revision org id other ∙ sym (append-nil _);
  }

  Kept-here :
      (org id : Uuid) (u : FinalGrade)
      → IsPlace current grade v r l stored a no_revision org id
      → lookup (org, id) r.grades ≡ some u
      → Kept r (amended grade v r) org id u
  Kept-here org id u here h =
      let e : current ≡ u =
        ground (arith, sym (stored_at current grade v r l stored a no_revision org id here) ∙ h) in
      subst (Kept r (amended grade v r) org id) e (record {
        now = grade;
        is_stored = grade_at_place org id here;
        recorded_by = a.recorded_by;
        recorded_at = a.recorded_at;
        closure = a.closure;
        recording_explanation = a.recording_explanation;
        enrollment = a.enrollment;
        attempted = a.attempted;
        added = v ∷ [];
        extended = own_history current grade v r l stored a no_revision org id here;
      })

  amended-Grows : Grows r (amended grade v r)
  amended-Grows org id u h = elim (IsPlace-or_not org id) [
    | inl here ↦ Kept-here org id u here h
    | inr other ↦ Kept-elsewhere org id u other h
  ]

pub revise-KeepsLedger :
    (current grade : FinalGrade) (v : GradeRevision) (expected : ℕ) (r r' : GradingRepository)
    → lookup (current.organization_id, current.id) r.grades ≡ some current
    → IsAmendment current grade v
    → revise_final_grade grade expected v r ≡ ok r'
    → KeepsLedger r r'
revise-KeepsLedger current grade v expected r r' stored a h l =
    let (no_revision, e) = revise-new grade v r expected r' h in
    subst (λ q. IsLedger q × Grows r q) (sym e)
      (
        amended-IsLedger current grade v r l stored a no_revision,
        amended-Grows current grade v r l stored a no_revision,
      )
