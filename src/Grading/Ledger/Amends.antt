-- ===== src/Grading/Ledger/Amends.antt =====
-- `revise_final_grade` of the grading repository adds one link to the history of a grade.
pub mod Stored
use mathlib.Core.Path.{subst, subst₂}
use mathlib.Core.List.{append-nil}
use onwlms.Prelude.{
  Bool-cases, [], ap, arith, false, filter, filter-append, inl, inr, nat_beq_iff, nat_eq, none,
  pair_beq_iff, pair_eq, some, string_eq, sym, ℕ, ◌++◌, ◌+◌, ◌∙◌, ◌∷◌, ◌≡◌, ◌⊎◌,
}
use onwlms.Prelude.Dict.{
  insert, lookup, lookup-insert, lookup-insert-cases, values, values-insert_new,
}
use onwlms.Core.{Uuid, ok}
use onwlms.Grading.Grades.{FinalGrade, GradeRevision, check_final_grade}
use onwlms.Grading.Ledger.{
  Chain, Chain-snoc, IsLedger, Snapshot, after_of, before_of, history, state_of,
}
use onwlms.Grading.Repository.{GradingRepository, is_revision_of, revise_final_grade}

-- A revision of a stored grade, with the grade that it leaves.
pub record IsAmendment (current grade : FinalGrade) (v : GradeRevision) : Type 0 where
  pub same_organization : grade.organization_id ≡ current.organization_id
  pub same_grade : grade.id ≡ current.id
  pub enrollment : grade.course_enrollment_id ≡ current.course_enrollment_id
  pub attempted : grade.credits_attempted ≡ current.credits_attempted
  pub recorded_by : grade.recorded_by ≡ current.recorded_by
  pub recorded_at : grade.recorded_at ≡ current.recorded_at
  pub closure : grade.recorded_after_term_closure ≡ current.recorded_after_term_closure
  pub recording_explanation : grade.recording_explanation ≡ current.recording_explanation
  pub next : grade.revision_number ≡ current.revision_number + 1
  pub organization : v.organization_id ≡ current.organization_id
  pub grade_id : v.final_grade_id ≡ current.id
  pub number : v.revision_number ≡ current.revision_number + 1
  pub starts : before_of v ≡ state_of current
  pub ends : after_of v ≡ state_of grade
  pub checked : check_final_grade grade ≡ ok grade

module _ (grade : FinalGrade) (v : GradeRevision) (r : GradingRepository) where
  abbrev pub amended : GradingRepository
  amended = record r {
    revisions = insert (v.organization_id, v.id) v r.revisions;
    grades = insert (grade.organization_id, grade.id) grade r.grades;
  }

  pub revise-new :
      (expected : ℕ) (r' : GradingRepository)
      → revise_final_grade grade expected v r ≡ ok r'
      → (lookup (v.organization_id, v.id) r.revisions ≡ none) × (r' ≡ amended)
  unfolding revise_final_grade
  revise-new expected r' h = (ground (arith, h), ground (arith, h))

  history_after :
      lookup (v.organization_id, v.id) r.revisions ≡ none
      → (org id : Uuid)
      → history org id amended ≡ history org id r ++ filter (is_revision_of org id) (v ∷ [])
  history_after h org id =
      ap (filter (is_revision_of org id))
        (values-insert_new (v.organization_id, v.id) v r.revisions h)
      ∙ filter-append (is_revision_of org id) (values r.revisions) (v ∷ [])

module _ (current grade : FinalGrade) (v : GradeRevision) (r : GradingRepository) (l : IsLedger r)
    (stored : lookup (current.organization_id, current.id) r.grades ≡ some current)
    (a : IsAmendment current grade v)
    (no_revision : lookup (v.organization_id, v.id) r.revisions ≡ none) where
  abbrev pub IsPlace : Uuid → Uuid → Type 0
  IsPlace org id = (org ≡ current.organization_id) × (id ≡ current.id)

  pub stored_at : (org id : Uuid) → IsPlace org id → lookup (org, id) r.grades ≡ some current
  stored_at org id (o, i) =
      subst₂ (λ x y. lookup (x, y) r.grades ≡ some current) (sym o) (sym i) stored

  -- The revision is one of this grade, and of no other.
  pub own_history :
      (org id : Uuid)
      → IsPlace org id
      → history org id (amended grade v r) ≡ history org id r ++ v ∷ []
  own_history org id (o, i) =
      history_after grade v r no_revision org id
      ∙ ap (λ vs. history org id r ++ vs)
          (ground (
            arith,
            nat_beq_iff v.organization_id org,
            nat_beq_iff v.final_grade_id id,
            a.organization,
            a.grade_id,
            o,
            i,
          ))

  other_place : (org id : Uuid) → (IsPlace org id → ⊥) → is_revision_of org id v ≡ false
  other_place org id other = elim (Bool-cases (is_revision_of org id v)) [
    | inr no_one ↦ no_one
    | inl own ↦ absurd (
        other (
          ground (arith, own, nat_beq_iff v.organization_id org, a.organization),
          ground (arith, own, nat_beq_iff v.final_grade_id id, a.grade_id),
        ))
  ]

  pub other_history :
      (org id : Uuid) → (IsPlace org id → ⊥) → history org id (amended grade v r) ≡ history org id r
  other_history org id other =
      history_after grade v r no_revision org id
      ∙ ap (λ vs. history org id r ++ vs)
          (ground (arith, a.same_organization, a.same_grade, a.organization, a.grade_id))
      ∙ append-nil (history org id r)

  -- Every place holds the new grade or what it held, with the history that belongs to it.
  place :
      (org id : Uuid) (u : FinalGrade)
      → lookup (org, id) (amended grade v r).grades ≡ some u
      → (IsPlace org id × (u ≡ grade))
        ⊎ ((lookup (org, id) r.grades ≡ some u)
            × (history org id (amended grade v r) ≡ history org id r))
  place org id u h =
      elim (lookup-insert-cases (grade.organization_id, grade.id) (org, id) grade u r.grades h) [
        | inl (same, e) ↦
            inl ((ap (λ k. k.0) same ∙ a.same_organization, ap (λ k. k.1) same ∙ a.same_grade), e)
        | inr (other, old) ↦ inr (
          old,
          other_history org id (λ (o, i). ground (
            arith,
            other,
            a.same_organization,
            a.same_grade,
            o,
            i,
            pair_beq_iff (grade.organization_id, grade.id) (org, id),
          )),
        )
      ]

  amended-chained :
      (org id : Uuid) (u : FinalGrade)
      → lookup (org, id) (amended grade v r).grades ≡ some u
      → (s : Snapshot) × Chain 0 s
          (history org id (amended grade v r))
          u.revision_number
          (state_of u)
  amended-chained org id u h = elim (place org id u h) [
    | inr (old, same) ↦
        let (s, c) = l.chained org id u old in
        (s, subst (λ vs. Chain 0 s vs u.revision_number (state_of u)) (sym same) c)
    | inl (here, e) ↦
        let (s, c) = l.chained org id current (stored_at org id here) in
        let longer =
          Chain-snoc (history org id r) v 0 current.revision_number s (state_of current) c a.number
            a.starts in
        (
          s,
          subst₂ (λ vs (u : FinalGrade). Chain 0 s vs u.revision_number (state_of u))
              (sym (own_history org id here)) (sym e)
              (subst₂ (λ n t. Chain 0 s (history org id r ++ v ∷ []) n t) (sym a.next) a.ends
                longer),
        )
  ]

  amended-fresh :
      (org id : Uuid)
      → lookup (org, id) (amended grade v r).grades ≡ none
      → history org id (amended grade v r) ≡ []
  amended-fresh org id h =
      let other : (IsPlace org id → ⊥) = λ (o, i). ground (
        arith,
        h,
        a.same_organization,
        a.same_grade,
        o,
        i,
        lookup-insert (grade.organization_id, grade.id) (org, id) grade r.grades,
        pair_beq_iff (grade.organization_id, grade.id) (org, id),
      ) in
      other_history org id other
      ∙ l.fresh org id (
          ground
            (arith, h, lookup-insert (grade.organization_id, grade.id) (org, id) grade r.grades))

  pub amended-IsLedger : IsLedger (amended grade v r)
  amended-IsLedger = record {
    keyed = λ org id u h. elim (place org id u h) [
      | inr (old, same) ↦ l.keyed org id u old
      | inl ((o, i), e) ↦ (
        ap (λ (u : FinalGrade). u.organization_id) e ∙ a.same_organization ∙ sym o,
        ap (λ (u : FinalGrade). u.id) e ∙ a.same_grade ∙ sym i,
        subst (λ u. check_final_grade u ≡ ok u) (sym e) a.checked,
      )
    ];
    chained = amended-chained;
    fresh = amended-fresh;
    indexed = λ org id u h. elim (place org id u h) [
      | inr (old, same) ↦ l.indexed org id u old
      | inl (here, e) ↦
          ap (λ c. lookup (org, c) r.course_enrollment_index)
            (ap (λ (u : FinalGrade). u.course_enrollment_id) e ∙ a.enrollment)
          ∙ l.indexed org id current (stored_at org id here)
    ];
  }
