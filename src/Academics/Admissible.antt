-- ===== src/Academics/Admissible.antt =====
-- What it means that `evaluate_course_selection` of backend/src/academics/domain/policies.py finds
-- no violation.
use mathlib.Core.Path.{subst}
use onwlms.Prelude.{
  All, Bool, List, Option, [], arith, contains, false, filter, insert_sorted, leb, ltb, nat_eq,
  none, not, pair_eq, refl, some, sort, string_eq, sym, true, ℕ, ◌+◌, ◌↔◌, ◌∙◌, ◌∷◌, ◌≡◌, ◌≢◌, ◌≤◌,
}
use onwlms.Prelude.Quantifiers.{Member, both-nil, contains_iff}
use onwlms.Core.{Uuid}
use onwlms.Core.Time.{DateTime}
use onwlms.Academics.Declared.{
  InForce, InForce-credits, Listed, NoneOverlap, active_credits-InForce, course-credits, course_iff,
  credits_in, overlap_iff,
}
use onwlms.Academics.Models.{
  CourseEnrollment, CourseOffering, CourseSelectionPolicy, CurriculumCourse, EducationMode,
  ProgramCurriculum, SelectionRuleCode, SelectionRuleViolation, course,
}
use onwlms.Academics.Selection.{
  active_credits, clashes, clashes_with, evaluate_course_selection, evaluate_offering,
  evaluate_offerings, if_missing, is_fixed, missing_prerequisites, offerings_overlap, violated,
  violation,
}

-- The course is in the curriculum and its prerequisites are completed.
abbrev pub Ready : ProgramCurriculum → List Uuid → Uuid → Type 0
Ready curriculum completed course_id =
    (c : CurriculumCourse) × Listed curriculum.courses course_id c
    × All (λ i. Member i completed) c.prerequisite_course_ids

-- No selected offering overlaps another one or an existing one.
abbrev pub Apart : List CourseOffering → List CourseOffering → Type 0
Apart existing [] = Unit {0}
Apart existing (o ∷ rest) =
    All (NoneOverlap o) rest × (All (NoneOverlap o) existing × Apart existing rest)

-- The credits that the curriculum gives for the offerings.
unfoldable pub credits_for : ProgramCurriculum → List CourseOffering → ℕ
credits_for curriculum [] = 0
credits_for curriculum (o ∷ rest) =
    credits_in curriculum.courses o.course_id + credits_for curriculum rest

pub record Admissible (policy : CourseSelectionPolicy) (curriculum : ProgramCurriculum)
    (selected : List CourseOffering) (enrollments : List CourseEnrollment)
    (existing : List CourseOffering) (completed : List Uuid) (submitted_at : DateTime)
    : Type 0 where
  pub flexible : policy.education_mode ≢ EducationMode.fixed_curriculum
  pub in_time : submitted_at.instant ≤ policy.deadline.instant
  pub ready : All (λ o. Ready curriculum completed o.course_id) selected
  pub held : ℕ
  pub in_force : InForce enrollments held
  pub affordable : held + credits_for curriculum selected ≤ policy.maximum_credits
  pub apart : Apart existing selected

violated-nil : (b : Bool) (v : SelectionRuleViolation) → (violated b v ≡ []) ↔ (b ≡ false)
violated-nil true v = ground arith
violated-nil false v = ground arith

fixed_iff :
    (m : EducationMode) (v : SelectionRuleViolation)
    → (violated (is_fixed m) v ≡ []) ↔ (m ≢ EducationMode.fixed_curriculum)
fixed_iff m v = ground (arith, violated-nil (is_fixed m) v)

late_iff : (m n : ℕ) (v : SelectionRuleViolation) → (violated (ltb m n) v ≡ []) ↔ (n ≤ m)
late_iff m n v = ground (arith, violated-nil (ltb m n) v)

unfinished_iff :
    (completed ps : List Uuid)
    → (filter (λ i. not (contains i completed)) ps ≡ []) ↔ All (λ i. Member i completed) ps
unfinished_iff completed [] = (λ h. tt, λ h. refl)
unfinished_iff completed (p ∷ ps) =
    ground (arith, unfinished_iff completed ps, contains_iff p completed)

insert-not_nil :
    (below : Uuid → Uuid → Bool) (x : Uuid) (xs : List Uuid) → insert_sorted below x xs ≢ []
insert-not_nil below x [] h = absurd (ground arith)
insert-not_nil below x (y ∷ ys) h = absurd (ground arith)

sort-nil : (xs : List Uuid) → (sort leb xs ≡ []) ↔ (xs ≡ [])
sort-nil [] = (λ h. refl, λ h. refl)
sort-nil (x ∷ xs) = (λ h. absurd (insert-not_nil leb x (sort leb xs) h), λ h. absurd (ground arith))

if_missing-nil : (id : Uuid) (xs : List Uuid) → (if_missing id xs ≡ []) ↔ (xs ≡ [])
if_missing-nil id [] = (λ h. refl, λ h. refl)
if_missing-nil id (x ∷ xs) = (λ h. absurd (ground arith), λ h. absurd (ground arith))

same_course : {c c' : CurriculumCourse} → some c ≡ some c' → c ≡ c'
same_course e = cc

prerequisites_iff :
    (completed : List Uuid) (id : Uuid) (c : CurriculumCourse)
    → (if_missing id (missing_prerequisites completed c) ≡ [])
      ↔ All (λ i. Member i completed) c.prerequisite_course_ids
prerequisites_iff completed id c =
    let one = if_missing-nil id (missing_prerequisites completed c) in
    let two = sort-nil (filter (λ i. not (contains i completed)) c.prerequisite_course_ids) in
    let three = unfinished_iff completed c.prerequisite_course_ids in
    (λ h. three.0 (two.0 (one.0 h)), λ h. one.1 (two.1 (three.1 h)))

offering_iff :
    (curriculum : ProgramCurriculum) (completed : List Uuid) (id : Uuid)
    (o : Option CurriculumCourse)
    → course curriculum id ≡ o
    → ((evaluate_offering completed id o).1 ≡ []) ↔ Ready curriculum completed id
offering_iff curriculum completed id none e = (
  λ h. absurd (ground arith),
  λ (c, l, h). absurd (ground (arith, sym e ∙ (course_iff curriculum id c).1 l)),
)
offering_iff curriculum completed id (some c) e =
    let known = prerequisites_iff completed id c in
    (
      λ h. (c, (course_iff curriculum id c).0 e, known.0 h),
      λ (c', l, h). known.1 (
          subst (λ c. All (λ i. Member i completed) c.prerequisite_course_ids)
            (same_course (sym ((course_iff curriculum id c').1 l) ∙ e)) h),
    )

offerings_iff :
    (curriculum : ProgramCurriculum) (completed : List Uuid) (os : List CourseOffering)
    → ((evaluate_offerings curriculum completed os).1 ≡ [])
      ↔ All (λ o. Ready curriculum completed o.course_id) os
unfolding evaluate_offerings
offerings_iff curriculum completed [] = (λ h. tt, λ h. refl)
offerings_iff curriculum completed (o ∷ os) =
    both-nil (offering_iff curriculum completed o.course_id _ refl)
      (offerings_iff curriculum completed os)

offerings-credits :
    (curriculum : ProgramCurriculum) (completed : List Uuid) (os : List CourseOffering)
    → (evaluate_offerings curriculum completed os).0 ≡ credits_for curriculum os
unfolding evaluate_offerings credits_for
offerings-credits curriculum completed [] = refl
offerings-credits curriculum completed (o ∷ os) =
    ground (arith, offerings-credits curriculum completed os, course-credits curriculum o.course_id)

clashes_with_iff :
    (o : CourseOffering) (rs : List CourseOffering)
    → (clashes_with o rs ≡ []) ↔ All (NoneOverlap o) rs
unfolding clashes_with
clashes_with_iff o [] = (λ h. tt, λ h. refl)
clashes_with_iff o (r ∷ rs) =
    let one =
      violated-nil (offerings_overlap o r)
        (violation SelectionRuleCode.schedule_conflict (o.id ∷ r.id ∷ [])) in
    let apart = overlap_iff o r in
    both-nil (λ h. apart.0 (one.0 h), λ h. one.1 (apart.1 h)) (clashes_with_iff o rs)

clashes_iff : (existing os : List CourseOffering) → (clashes existing os ≡ []) ↔ Apart existing os
unfolding clashes
clashes_iff existing [] = (λ h. tt, λ h. refl)
clashes_iff existing (o ∷ os) =
    both-nil (clashes_with_iff o os)
      (both-nil (clashes_with_iff o existing) (clashes_iff existing os))

module _ (policy : CourseSelectionPolicy) (curriculum : ProgramCurriculum)
    (selected : List CourseOffering) (enrollments : List CourseEnrollment)
    (existing : List CourseOffering) (completed : List Uuid) (submitted_at : DateTime) where
  -- The evaluation asks for the credits of the curriculum, and has no violation exactly when the
  -- selection is admissible: not in a fixed curriculum, in time, each course in the curriculum with
  -- its prerequisites completed, within the credits together with those of the enrollments of status
  -- enrolled, and with no meeting that overlaps one of another selected or existing offering.
  pub evaluate_course_selection_iff :
      let evaluation =
        evaluate_course_selection policy curriculum selected enrollments existing completed
          submitted_at in
      (evaluation.requested_credits ≡ credits_for curriculum selected)
      × ((evaluation.violations ≡ [])
          ↔ Admissible policy curriculum selected enrollments existing completed submitted_at)
  unfolding evaluate_course_selection
  evaluate_course_selection_iff =
      let asked = offerings-credits curriculum completed selected in
      let rules = both-nil (fixed_iff policy.education_mode _) (
        both-nil (late_iff policy.deadline.instant submitted_at.instant _) (
          both-nil (offerings_iff curriculum completed selected) (
            both-nil
              (late_iff policy.maximum_credits
                (active_credits enrollments + (evaluate_offerings curriculum completed selected).0)
                _)
              (clashes_iff existing selected)))) in
      (
        asked,
        (
          λ h.
              let (flexible, rest) = rules.0 h in
              record {
                flexible = flexible;
                in_time = rest.0;
                ready = rest.1.0;
                held = active_credits enrollments;
                in_force = active_credits-InForce enrollments;
                affordable =
                    subst (λ n. active_credits enrollments + n ≤ policy.maximum_credits) asked
                      rest.1.1.0;
                apart = rest.1.1.1;
              },
          λ a. rules.1 (
            a.flexible,
            (
              a.in_time,
              (
                a.ready,
                (
                  omega (arith, InForce-credits enrollments a.held a.in_force, asked, a.affordable),
                  a.apart,
                ),
              ),
            ),
          ),
        ),
      )
