-- ===== src/Grading/Summary.antt =====
-- The sums of `calculate_gpa_summary` of backend/src/grading/domain/models.py.
use onwlms.Prelude.{
  All, Bool, Bool-cases, List, [], arith, filter, inl, inr, is_some, map, nat_eq, pair_eq, refl,
  string_eq, true, ◌∷◌, ◌≡◌,
}
use onwlms.Prelude.Quantifiers.{All-mono}
use onwlms.Core.{ok}
use onwlms.Core.Decimal.{
  +d-above, +d-mono, Decimal, at_most, at_most_total, below_special, finite, is_finite, special,
  whole, ◌+d◌,
}
use onwlms.Grading.Grades.{FinalGrade, calculate_gpa_summary, check_final_grade, sum_from}
use onwlms.Grading.Resolves.{at_most_refl, not_below}

-- A larger start and larger values give a larger sum.
sums_mono :
    (f g : FinalGrade → Decimal) (grades : List FinalGrade) (a b : Decimal)
    → at_most a b ≡ true
    → All (λ (x : FinalGrade). at_most (f x) (g x) ≡ true) grades
    → at_most (sum_from a (map f grades)) (sum_from b (map g grades)) ≡ true
unfolding sum_from
sums_mono f g [] a b h all_less = h
sums_mono f g (x ∷ xs) a b h all_less =
    sums_mono f g xs (a +d f x) (b +d g x) (+d-mono a b (f x) (g x) h all_less.0) all_less.1

above_finite : (a b : Decimal) → at_most a b ≡ true → is_finite b ≡ true
above_finite a (finite c s) h = refl
above_finite a special h = absurd (below_special a h)

-- Dropping values that are not negative lowers a sum.
filtered_sum :
    (p : FinalGrade → Bool) (f : FinalGrade → Decimal) (grades : List FinalGrade) (a b : Decimal)
    → at_most a b ≡ true
    → All (λ (x : FinalGrade). at_most (whole 0) (f x) ≡ true) grades
    → at_most (sum_from a (map f (filter p grades))) (sum_from b (map f grades)) ≡ true
unfolding sum_from
filtered_sum p f [] a b h all_pos = h
filtered_sum p f (x ∷ xs) a b h all_pos = elim (Bool-cases (p x)) [
  | inl kept ↦ rw kept (
      filtered_sum p f xs (a +d f x) (b +d f x)
        (+d-mono a b (f x) (f x) h (at_most_refl (f x) (above_finite (whole 0) (f x) all_pos.0)))
        all_pos.1)
  | inr dropped ↦
      rw dropped (filtered_sum p f xs a (b +d f x) (+d-above a b (f x) h all_pos.0) all_pos.1)
]

-- A grade that has passed its checks, with credits that are numbers.
pub record IsSound (g : FinalGrade) : Type 0 where
  pub checked : check_final_grade g ≡ ok g
  pub attempted_finite : is_finite g.credits_attempted ≡ true
  pub earned_finite : is_finite g.credits_earned ≡ true

earned-le-attempted :
    (g : FinalGrade) → IsSound g → at_most g.credits_earned g.credits_attempted ≡ true
unfolding check_final_grade
earned-le-attempted g s =
    not_below g.credits_attempted g.credits_earned s.attempted_finite s.earned_finite
      (ground (arith, s.checked))

attempted_pos : (g : FinalGrade) → IsSound g → at_most (whole 0) g.credits_attempted ≡ true
unfolding check_final_grade
attempted_pos g s =
    at_most_total g.credits_attempted (whole 0) s.attempted_finite refl (ground (arith, s.checked))

-- Over grades that have passed their checks, with credits that are numbers, the summary never has
-- more credits earned than attempted, or more GPA credits than attempted ones.
pub calculate_gpa_summary_bounds :
    (grades : List FinalGrade)
    → All IsSound grades
    → let s = calculate_gpa_summary grades in
      (at_most s.credits_earned s.credits_attempted ≡ true)
      × (at_most s.gpa_credits_attempted s.credits_attempted ≡ true)
unfolding calculate_gpa_summary
calculate_gpa_summary_bounds grades sound = (
  sums_mono (λ (g : FinalGrade). g.credits_earned) (λ (g : FinalGrade). g.credits_attempted) grades
      (whole 0) (whole 0) (at_most_refl (whole 0) refl) (All-mono earned-le-attempted grades sound),
  filtered_sum (λ (g : FinalGrade). is_some g.grade_points)
      (λ (g : FinalGrade). g.credits_attempted) grades (whole 0) (whole 0)
      (at_most_refl (whole 0) refl) (All-mono attempted_pos grades sound),
)
