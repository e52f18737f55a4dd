-- ===== src/Academics/Declared.antt =====
-- The parts of a course selection (backend/src/academics/domain/policies.py and models.py) without
-- the functions that compute them: courses of a curriculum, credits in force, meetings apart.
use mathlib.Core.Path.{subst}
use onwlms.Prelude.{
  All, Bool-cases, List, Option, [], any, arith, false, find, if◌then◌else◌, inl, inr, nat_eq, none,
  pair_eq, refl, some, string_eq, true, ℕ, ◌+◌, ◌==◌, ◌↔◌, ◌∷◌, ◌≡◌, ◌≢◌,
}
use onwlms.Prelude.Quantifiers.{All-mono, any-false}
use onwlms.Core.{Uuid}
use onwlms.Academics.Models.{
  CourseEnrollment, CourseEnrollmentStatus, CourseOffering, CurriculumCourse, ProgramCurriculum,
  course, is_enrolled, meeting_overlaps,
}
use onwlms.Academics.Selection.{active_credits, offerings_overlap}

-- The first course of the list under the identifier.
pub data Listed : List CurriculumCourse → Uuid → CurriculumCourse → Type 0 where
  here :
      {c : CurriculumCourse} {cs : List CurriculumCourse} {id : Uuid}
      → c.course_id ≡ id
      → Listed (c ∷ cs) id c
  later :
      {c d : CurriculumCourse} {cs : List CurriculumCourse} {id : Uuid}
      → c.course_id ≢ id
      → Listed cs id d
      → Listed (c ∷ cs) id d

-- No meeting of the one overlaps a meeting of the other.
abbrev pub NoneOverlap : CourseOffering → CourseOffering → Type 0
NoneOverlap left right =
    All (λ l. All (λ r. meeting_overlaps l r ≡ false) right.meeting_windows) left.meeting_windows

-- The credits of the enrollments in force, those of status enrolled, add up to so many.
pub data InForce : List CourseEnrollment → ℕ → Type 0 where
  nothing : InForce [] 0
  counts :
      {e : CourseEnrollment} {es : List CourseEnrollment} {n : ℕ}
      → e.status ≡ CourseEnrollmentStatus.enrolled
      → InForce es n
      → InForce (e ∷ es) (e.credits + n)
  ended :
      {e : CourseEnrollment} {es : List CourseEnrollment} {n : ℕ}
      → e.status ≢ CourseEnrollmentStatus.enrolled
      → InForce es n
      → InForce (e ∷ es) n

-- The credits of the first course under the identifier, and none if it is not there.
abbrev pub credits_in : List CurriculumCourse → Uuid → ℕ
credits_in [] id = 0
credits_in (c ∷ cs) id =
    let others = credits_in cs id in if c.course_id == id then c.credits else others

abbrev credits_of : Option CurriculumCourse → ℕ
credits_of none = 0
credits_of (some c) = c.credits

find-Listed :
    (cs : List CurriculumCourse) (id : Uuid) (c : CurriculumCourse)
    → find (λ course. course.course_id == id) cs ≡ some c
    → Listed cs id c
find-Listed [] id c h = absurd (ground (arith, h))
find-Listed (d ∷ cs) id c h = elim (Bool-cases (d.course_id == id)) [
  | inl e ↦
      let same : d ≡ c = ground (arith, h, e) in
      subst (Listed (d ∷ cs) id) same (Listed.here (ground (arith, e)))
  | inr e ↦ Listed.later (ground (arith, e)) (find-Listed cs id c (ground (arith, h, e)))
]

Listed-find :
    (cs : List CurriculumCourse) (id : Uuid) (c : CurriculumCourse)
    → Listed cs id c
    → find (λ course. course.course_id == id) cs ≡ some c
Listed-find [] id c h = elim h [ ]
Listed-find (d ∷ cs) id c (Listed.here e) = ground (arith, e)
Listed-find (d ∷ cs) id c (Listed.later e h) = ground (arith, e, Listed-find cs id c h)

pub course_iff :
    (curriculum : ProgramCurriculum) (id : Uuid) (c : CurriculumCourse)
    → (course curriculum id ≡ some c) ↔ Listed curriculum.courses id c
unfolding course
course_iff curriculum id c =
    (find-Listed curriculum.courses id c, Listed-find curriculum.courses id c)

find-credits :
    (cs : List CurriculumCourse) (id : Uuid)
    → credits_of (find (λ course. course.course_id == id) cs) ≡ credits_in cs id
find-credits [] id = refl
find-credits (c ∷ cs) id = ground (arith, find-credits cs id)

pub course-credits :
    (curriculum : ProgramCurriculum) (id : Uuid)
    → credits_of (course curriculum id) ≡ credits_in curriculum.courses id
unfolding course
course-credits curriculum id = find-credits curriculum.courses id

is_enrolled_iff :
    (s : CourseEnrollmentStatus) → (is_enrolled s ≡ true) ↔ (s ≡ CourseEnrollmentStatus.enrolled)
is_enrolled_iff s = ground arith

pub active_credits-InForce : (es : List CourseEnrollment) → InForce es (active_credits es)
unfolding active_credits
active_credits-InForce [] = InForce.nothing
active_credits-InForce (e ∷ es) =
    let later = active_credits-InForce es in
    elim (Bool-cases (is_enrolled e.status)) [
      | inl h ↦
          subst (InForce (e ∷ es)) (ground (arith, h))
            (InForce.counts ((is_enrolled_iff e.status).0 h) later)
      | inr h ↦
          subst (InForce (e ∷ es)) (ground (arith, h))
            (InForce.ended (λ s. ground (arith, h, (is_enrolled_iff e.status).1 s)) later)
    ]

pub InForce-credits : (es : List CourseEnrollment) (n : ℕ) → InForce es n → n ≡ active_credits es
unfolding active_credits
InForce-credits [] n InForce.nothing = refl
InForce-credits (e ∷ es) n (InForce.counts s h) =
    ground (arith, InForce-credits es _ h, (is_enrolled_iff e.status).1 s)
InForce-credits (e ∷ es) n (InForce.ended s h) =
    ground (arith, InForce-credits es _ h, (is_enrolled_iff e.status).0)

pub overlap_iff :
    (left right : CourseOffering) → (offerings_overlap left right ≡ false) ↔ NoneOverlap left right
unfolding offerings_overlap
overlap_iff left right =
    let outer =
      any-false (λ l. any (λ r. meeting_overlaps l r) right.meeting_windows) left.meeting_windows in
    (
      λ h.
          All-mono (λ l. (any-false (meeting_overlaps l) right.meeting_windows).0)
            left.meeting_windows (outer.0 h),
      λ h. outer.1 (
          All-mono (λ l. (any-false (meeting_overlaps l) right.meeting_windows).1)
            left.meeting_windows h),
    )
