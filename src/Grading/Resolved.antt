-- ===== src/Grading/Resolved.antt =====
-- `resolve` of backend/src/grading/domain/models.py against an independent description.
use mathlib.Core.Path.{subst}
use onwlms.Prelude.{
  All, Bool-cases, List, String, [], ap, arith, false, filter, inl, inr, nat_eq, pair_eq, refl,
  string_eq, sym, true, ◌||◌, ◌↔◌, ◌∙◌, ◌∷◌, ◌≡◌, ◌⊎◌,
}
use onwlms.Prelude.Quantifiers.{All-of, All_at, Member, Member-filter}
use onwlms.Core.{>>=-eq-ok, AppError, err, grading_rule, ok}
use onwlms.Core.Decimal.{
  Decimal, above_special, at_most, at_most_trans, finite, is_below, is_finite, special,
}
use onwlms.Grading.Resolves.{
  HasThreshold, IsUnder, distinct-threshold, highest-Member, highest-above, not_below,
  scale_distinct, scale_start, threshold-Member,
}
use onwlms.Grading.Scales.{
  GradeBand, GradeOutcome, GradingScale, check_scale, highest, highest_of, kind_eq, outcome_of,
  resolve_score,
}

-- The outcome of the highest band that the score reaches.
pub record Resolves (s : GradingScale) (score : Decimal) (o : GradeOutcome) : Type 0 where
  pub numeric : is_finite score ≡ true
  pub from_minimum : at_most s.minimum_score score ≡ true
  pub to_maximum : at_most score s.maximum_score ≡ true
  pub band : GradeBand
  pub is_band : Member band s.bands
  pub reached : at_most band.minimum_score score ≡ true
  pub is_highest :
      (c : GradeBand)
      → Member c s.bands
      → at_most c.minimum_score score ≡ true
      → at_most c.minimum_score band.minimum_score ≡ true
  pub outcome : outcome_of band ≡ o

abbrev reached_bands : GradingScale → Decimal → List GradeBand
reached_bands s score = filter (λ (b : GradeBand). at_most b.minimum_score score) s.bands

reached_finite : (a b : Decimal) → at_most a b ≡ true → is_finite a ≡ true
reached_finite (finite c x) b h = refl
reached_finite special b h = absurd (above_special b h)

reached-HasThreshold :
    (s : GradingScale) (score : Decimal) → All HasThreshold (reached_bands s score)
reached-HasThreshold s score = All-of HasThreshold (reached_bands s score) λ b m.
    reached_finite b.minimum_score score
      ((Member-filter (λ (b : GradeBand). at_most b.minimum_score score) b s.bands).0 m).1

highest_of-ok :
    (bs : List GradeBand) (b : GradeBand)
    → All HasThreshold bs
    → highest_of bs ≡ ok b
    → Member b bs × All (λ c. IsUnder c b) bs
unfolding highest_of
highest_of-ok [] b fs h = cc
highest_of-ok (c ∷ cs) b fs h =
    let e : highest c cs ≡ b = ground (arith, h) in
    (
      subst (λ x. Member x (c ∷ cs)) e (highest-Member c cs),
      subst (λ x. All (λ d. IsUnder d x) (c ∷ cs)) e (highest-above c cs fs.0 fs.1),
    )

highest_of_total :
    (bs : List GradeBand) (c : GradeBand) → Member c bs → (b : GradeBand) × (highest_of bs ≡ ok b)
unfolding highest_of
highest_of_total [] c m = elim m [ ]
highest_of_total (b ∷ bs) c m = (highest b bs, refl)

module _ (casefold : String → String) (s : GradingScale) (checked : check_scale casefold s ≡ ok s)
    (score : Decimal) where
  bounds_finite : (is_finite s.minimum_score ≡ true) × (is_finite s.maximum_score ≡ true)
  unfolding check_scale
  bounds_finite = ground (arith, checked)

  -- The two tests of the bounds.
  in_bounds :
      is_finite score ≡ true
      → (is_below score s.minimum_score || is_below s.maximum_score score) ≡ false
      → (at_most s.minimum_score score ≡ true) × (at_most score s.maximum_score ≡ true)
  in_bounds f h = ground (
    arith,
    not_below score s.minimum_score f bounds_finite.0,
    not_below s.maximum_score score bounds_finite.1 f,
  )

  resolve_score-Resolves : (o : GradeOutcome) → resolve_score s score ≡ ok o → Resolves s score o
  unfolding resolve_score
  resolve_score-Resolves o h =
      let f : is_finite score ≡ true = ground (arith, h) in
      let inside = in_bounds f (ground (arith, h)) in
      let (b, found, e) =
        >>=-eq-ok (highest_of (reached_bands s score)) (λ b. ok (outcome_of b)) {b = o}
          (ground (arith, h)) in
      let (m, above) =
        highest_of-ok (reached_bands s score) b (reached-HasThreshold s score) found in
      let p = λ (b : GradeBand). at_most b.minimum_score score in
      let (n, r) = (Member-filter p b s.bands).0 m in
      record {
        numeric = f;
        from_minimum = inside.0;
        to_maximum = inside.1;
        band = b;
        is_band = n;
        reached = r;
        is_highest = λ c k q.
            All_at (λ c. IsUnder c b) (reached_bands s score) above c
              ((Member-filter p c s.bands).1 (k, q));
        outcome = ground (arith, e);
      }

  -- Some band is reached: the lowest one starts at the minimum.
  some_reached :
      at_most s.minimum_score score ≡ true → (c : GradeBand) × Member c (reached_bands s score)
  some_reached h =
      let (t, m, low) = scale_start casefold s checked in
      let (c, n, e) = threshold-Member t s.bands m in
      (
        c,
        (Member-filter (λ (b : GradeBand). at_most b.minimum_score score) c s.bands).1
            (n, subst (λ x. at_most x score ≡ true) (sym e) (at_most_trans _ _ _ low h)),
      )

  resolve_within :
      is_finite score ≡ true
      → at_most s.minimum_score score ≡ true
      → at_most score s.maximum_score ≡ true
      → (o : GradeOutcome) × (resolve_score s score ≡ ok o)
  unfolding resolve_score
  resolve_within f low high =
      let (c, m) = some_reached low in
      let (b, found) = highest_of_total (reached_bands s score) c m in
      (outcome_of b, ground (arith, f, low, high, found))

  Resolves-unique : (o o' : GradeOutcome) → Resolves s score o → Resolves s score o' → o ≡ o'
  Resolves-unique o o' r q =
      let same =
        distinct-threshold s.bands r.band q.band (scale_distinct casefold s checked) r.is_band
          q.is_band
          (ground (
            arith,
            r.is_highest q.band q.is_band q.reached,
            q.is_highest r.band r.is_band r.reached,
          )) in
      sym r.outcome ∙ ap outcome_of same ∙ q.outcome

module _ (casefold : String → String) (s : GradingScale) (checked : check_scale casefold s ≡ ok s)
    (score : Decimal) where
  abbrev IsRefused : Type 0
  IsRefused =
      (is_finite score ≡ false)
      ⊎ (is_below score s.minimum_score ≡ true)
      ⊎ (is_below s.maximum_score score ≡ true)

  IsRefused-raises : IsRefused → resolve_score s score ≡ err grading_rule
  unfolding resolve_score
  IsRefused-raises r = ground arith

  accepted_or_refused : ((o : GradeOutcome) × (resolve_score s score ≡ ok o)) ⊎ IsRefused
  accepted_or_refused = elim (Bool-cases (is_finite score)) [
    | inr special_one ↦ inr (inl special_one)
    | inl f ↦ elim (Bool-cases (is_below score s.minimum_score)) [
      | inl low ↦ inr (inr (inl low))
      | inr from_low ↦ elim (Bool-cases (is_below s.maximum_score score)) [
        | inl high ↦ inr (inr (inr high))
        | inr to_high ↦
            let inside = in_bounds casefold s checked score f (ground arith) in
            inl (resolve_within casefold s checked score f inside.0 inside.1)
      ]
    ]
  ]

  resolve_raises : (e : AppError) → resolve_score s score ≡ err e → (e ≡ grading_rule) × IsRefused
  resolve_raises e h = elim accepted_or_refused [
    | inl (o, found) ↦ absurd (ground (arith, sym h ∙ found))
    | inr refused ↦ (ground (arith, sym h ∙ IsRefused-raises refused), refused)
  ]

-- A scale that has passed its checks gives a score an outcome exactly when the score is a number
-- within the bounds and the outcome is that of the highest band whose threshold the score reaches.
pub resolve_score_iff :
    (casefold : String → String) (s : GradingScale) (score : Decimal) (o : GradeOutcome)
    → check_scale casefold s ≡ ok s
    → (resolve_score s score ≡ ok o) ↔ Resolves s score o
resolve_score_iff casefold s score o checked = (
  resolve_score-Resolves casefold s checked score o,
  λ r.
      let (o', found) =
        resolve_within casefold s checked score r.numeric r.from_minimum r.to_maximum in
      let same =
        Resolves-unique casefold s checked score o' o
          (resolve_score-Resolves casefold s checked score o' found) r in
      found ∙ ap (λ o. ok o) same,
)

-- On a scale that has passed its checks, the lookup raises exactly for a score that is no number or
-- lies outside the bounds, and then it raises a grading rule error, never the one of an empty `max`.
pub resolve_score_error :
    (casefold : String → String) (s : GradingScale) (score : Decimal) (e : AppError)
    → check_scale casefold s ≡ ok s
    → (resolve_score s score ≡ err e) ↔ (
        (e ≡ grading_rule)
        × ((is_finite score ≡ false)
            ⊎ (is_below score s.minimum_score ≡ true)
            ⊎ (is_below s.maximum_score score ≡ true)))
resolve_score_error casefold s score e checked = (
  resolve_raises casefold s checked score e,
  λ (same, refused). IsRefused-raises casefold s checked score refused ∙ ap (λ e. err e) (sym same),
)
