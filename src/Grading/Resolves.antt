-- ===== src/Grading/Resolves.antt =====
-- What `resolve` of a grading scale finds, by the bands alone.
use onwlms.Prelude.{
  All, Bool, Bool-cases, List, String, [], arith, false, if◌then◌else◌, inl, inr, nat_eq, pair_eq,
  refl, string_eq, sym, true, ◌∙◌, ◌∷◌, ◌≡◌,
}
use onwlms.Prelude.Quantifiers.{Member}
use onwlms.Core.{ok}
use onwlms.Core.Decimal.{
  Decimal, at_most, at_most_trans, at_most_total, is_below, is_finite, same_value,
}
use onwlms.Grading.Scales.{
  GradeBand, GradingScale, are_distinct, check_scale, contains_value, highest, kind_eq, lowest,
  starts_elsewhere, thresholds,
}

pub at_most_refl : (a : Decimal) → is_finite a ≡ true → at_most a a ≡ true
at_most_refl a f = elim (Bool-cases (at_most a a)) [ inl h ↦ h | inr h ↦ at_most_total a a f f h ]

-- A value that is not below another is above it, or equal.
pub not_below :
    (a b : Decimal)
    → is_finite a ≡ true
    → is_finite b ≡ true
    → is_below a b ≡ false
    → at_most b a ≡ true
not_below a b f g h = ground (arith, at_most_total a b f g)

abbrev pub HasThreshold : GradeBand → Type 0
HasThreshold b = is_finite b.minimum_score ≡ true

abbrev pub IsUnder : GradeBand → GradeBand → Type 0
IsUnder b c = at_most b.minimum_score c.minimum_score ≡ true

abbrev higher : GradeBand → GradeBand → GradeBand
higher b c = if is_below b.minimum_score c.minimum_score then c else b

higher-above :
    (b c : GradeBand)
    → HasThreshold b
    → HasThreshold c
    → HasThreshold (higher b c) × IsUnder b (higher b c) × IsUnder c (higher b c)
higher-above b c f g = ground (
  arith,
  at_most_refl b.minimum_score f,
  at_most_refl c.minimum_score g,
  not_below b.minimum_score c.minimum_score f g,
)

pub highest-above :
    (b : GradeBand) (bs : List GradeBand)
    → HasThreshold b
    → All HasThreshold bs
    → IsUnder b (highest b bs) × All (λ c. IsUnder c (highest b bs)) bs
unfolding highest
highest-above b [] f fs = (at_most_refl b.minimum_score f, tt)
highest-above b (c ∷ cs) f fs =
    let (h, b_up, c_up) = higher-above b c f fs.0 in
    let (up, all_up) = highest-above (higher b c) cs h fs.1 in
    (at_most_trans _ _ _ b_up up, (at_most_trans _ _ _ c_up up, all_up))

-- The first of two, or a member of the rest.
Member-either :
    {A : Type 0} (t : Bool) (x b c : A) (cs : List A)
    → Member x ((if t then c else b) ∷ cs)
    → Member x (b ∷ c ∷ cs)
Member-either true x b c cs m = inr m
Member-either false x b c cs (inl e) = inl e
Member-either false x b c cs (inr m) = inr (inr m)

pub highest-Member : (b : GradeBand) (bs : List GradeBand) → Member (highest b bs) (b ∷ bs)
unfolding highest
highest-Member b [] = inl refl
highest-Member b (c ∷ cs) =
    Member-either (is_below b.minimum_score c.minimum_score) _ b c cs
      (highest-Member (higher b c) cs)

lowest-Member : (t : Decimal) (ts : List Decimal) → Member (lowest t ts) (t ∷ ts)
unfolding lowest
lowest-Member t [] = inl refl
lowest-Member t (u ∷ us) =
    Member-either (is_below u t) _ t u us (lowest-Member (if is_below u t then u else t) us)

contains_threshold :
    (t : Decimal) (bs : List GradeBand) (c : GradeBand)
    → Member c bs
    → same_value t c.minimum_score ≡ true
    → contains_value t (thresholds bs) ≡ true
contains_threshold t [] c m e = elim m [ ]
contains_threshold t (b ∷ bs) c (inl p) e = ground (arith, p)
contains_threshold t (b ∷ bs) c (inr m) e = ground (arith, contains_threshold t bs c m)

-- Members of a checked scale with equal thresholds are one band.
pub distinct-threshold :
    (bs : List GradeBand) (b c : GradeBand)
    → are_distinct (thresholds bs) ≡ true
    → Member b bs
    → Member c bs
    → same_value b.minimum_score c.minimum_score ≡ true
    → b ≡ c
distinct-threshold [] b c d m n e = elim m [ ]
distinct-threshold (a ∷ bs) b c d (inl p) (inl q) e = sym p ∙ q
distinct-threshold (a ∷ bs) b c d (inl p) (inr n) e =
    absurd (ground (arith, p, contains_threshold a.minimum_score bs c n))
distinct-threshold (a ∷ bs) b c d (inr m) (inl q) e =
    absurd (ground (arith, q, contains_threshold a.minimum_score bs b m))
distinct-threshold (a ∷ bs) b c d (inr m) (inr n) e = distinct-threshold bs b c (ground arith) m n e

pub threshold-Member :
    (t : Decimal) (bs : List GradeBand)
    → Member t (thresholds bs)
    → (b : GradeBand) × Member b bs × (b.minimum_score ≡ t)
threshold-Member t [] m = elim m [ ]
threshold-Member t (b ∷ bs) (inl e) = (b, inl refl, e)
threshold-Member t (b ∷ bs) (inr m) = let (c, n, e) = threshold-Member t bs m in (c, inr n, e)

module _ (casefold : String → String) (s : GradingScale)
    (checked : check_scale casefold s ≡ ok s) where
  -- What the checks of a scale give to its lookup.
  pub scale_distinct : are_distinct (thresholds s.bands) ≡ true
  unfolding check_scale
  scale_distinct = ground (arith, checked)

  pub scale_start :
      (t : Decimal) × Member t (thresholds s.bands) × (at_most t s.minimum_score ≡ true)
  unfolding check_scale
  scale_start = start (thresholds s.bands) (ground (arith, checked))
    where
      start :
          (ts : List Decimal)
          → starts_elsewhere s.minimum_score ts ≡ false
          → (t : Decimal) × Member t ts × (at_most t s.minimum_score ≡ true)
      start [] h = cc
      start (t ∷ ts) h = (lowest t ts, lowest-Member t ts, ground (arith, h))
