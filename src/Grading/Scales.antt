-- ===== src/Grading/Scales.antt =====
-- The grading scales of backend/src/grading/domain/models.py, each record with its `__post_init__`
-- as a `check_` function that raises or returns it.
use onwlms.Prelude.{
  Bool, Eq, List, Option, String, [], any, arith, coded_eq, false, filter, if◌then◌else◌, is_unique,
  length, map, nat_beq, nat_eq, none, not, pair_eq, some, string_eq, true, ℕ, ◌&&◌, ◌||◌, ◌∷◌, ◌≡◌,
}
use onwlms.Prelude.Int.{pos}
use onwlms.Core.{Result, Uuid, err, grading_rule, ok, raise_if, value_error, ◌>>=◌, ◌>>◌}
use onwlms.Core.Decimal.{Decimal, at_most, finite, is_below, is_finite, same_value, whole}
use onwlms.Core.Text.{is_blank}

pub data GradingScaleKind : Type 0 where
  percentage letter ects five_point pass_fail custom : GradingScaleKind

abbrev kind_code : GradingScaleKind → ℕ
kind_code GradingScaleKind.percentage = 0
kind_code GradingScaleKind.letter = 1
kind_code GradingScaleKind.ects = 2
kind_code GradingScaleKind.five_point = 3
kind_code GradingScaleKind.pass_fail = 4
kind_code GradingScaleKind.custom = 5

pub kind_code_injective : (a b : GradingScaleKind) → kind_code a ≡ kind_code b → a ≡ b
kind_code_injective a b h = ground arith

instance abbrev pub kind_eq : Eq GradingScaleKind
kind_eq = coded_eq kind_code kind_code_injective

pub data GradingScaleTemplate : Type 0 where
  percentage ects five_point pass_fail : GradingScaleTemplate

pub record GradeBand : Type 0 where
  pub minimum_score : Decimal
  pub symbol : String
  pub passing : Bool
  pub grade_points : Option Decimal

-- Whether grade points are given that are not finite, or negative.
abbrev pub is_bad_points : Option Decimal → Bool
is_bad_points none = false
is_bad_points (some p) = not (is_finite p) || is_below p (whole 0)

unfoldable pub check_band : GradeBand → Result GradeBand
check_band b = do
  raise_if (not (is_finite b.minimum_score)) grading_rule
  raise_if (is_blank b.symbol) grading_rule
  raise_if (is_bad_points b.grade_points) grading_rule
  ok b

pub record GradeOutcome : Type 0 where
  pub symbol : String
  pub passing : Bool
  pub grade_points : Option Decimal

abbrev pub outcome_of : GradeBand → GradeOutcome
outcome_of b = record { symbol = b.symbol; passing = b.passing; grade_points = b.grade_points }

pub record GradingScale : Type 0 where
  pub id : Uuid
  pub organization_id : Uuid
  pub name : String
  pub kind : GradingScaleKind
  pub minimum_score : Decimal
  pub maximum_score : Decimal
  pub bands : List GradeBand

abbrev pub thresholds : List GradeBand → List Decimal
thresholds bands = map (λ (b : GradeBand). b.minimum_score) bands

-- `x in xs` and `len(xs) == len(set(xs))` by value.
abbrev pub contains_value : Decimal → List Decimal → Bool
contains_value a xs = any (same_value a) xs

abbrev pub are_distinct : List Decimal → Bool
are_distinct [] = true
are_distinct (x ∷ xs) = not (contains_value x xs) && are_distinct xs

-- `min`, which keeps the first of equal values
unfoldable pub lowest : Decimal → List Decimal → Decimal
lowest t [] = t
lowest t (u ∷ us) = lowest (if is_below u t then u else t) us

-- `min(thresholds) != minimum_score`, and no threshold at all
abbrev pub starts_elsewhere : Decimal → List Decimal → Bool
starts_elsewhere m [] = true
starts_elsewhere m (t ∷ ts) = not (same_value (lowest t ts) m)

unfoldable pub check_scale : (String → String) → GradingScale → Result GradingScale
check_scale casefold s = do
  raise_if (is_blank s.name) grading_rule
  raise_if (not (is_finite s.minimum_score) || not (is_finite s.maximum_score)) grading_rule
  raise_if (at_most s.maximum_score s.minimum_score) grading_rule
  raise_if (nat_beq (length s.bands) 0) grading_rule
  raise_if (not (are_distinct (thresholds s.bands))) grading_rule
  raise_if (not (is_unique (map (λ (b : GradeBand). casefold b.symbol) s.bands))) grading_rule
  raise_if (starts_elsewhere s.minimum_score (thresholds s.bands)) grading_rule
  raise_if
      (any (λ t. is_below t s.minimum_score || is_below s.maximum_score t) (thresholds s.bands))
      grading_rule
  ok s

-- `max(bands, key=...)`, which keeps the first of equal thresholds
unfoldable pub highest : GradeBand → List GradeBand → GradeBand
highest b [] = b
highest b (c ∷ cs) = highest (if is_below b.minimum_score c.minimum_score then c else b) cs

-- `max` raises if there is no band.
unfoldable pub highest_of : List GradeBand → Result GradeBand
highest_of [] = err value_error
highest_of (b ∷ bs) = ok (highest b bs)

-- The method `resolve` of a scale.
unfoldable pub resolve_score : GradingScale → Decimal → Result GradeOutcome
resolve_score s score = do
  raise_if (not (is_finite score)) grading_rule
  raise_if (is_below score s.minimum_score || is_below s.maximum_score score) grading_rule
  matching ← highest_of (filter (λ (b : GradeBand). at_most b.minimum_score score) s.bands)
  ok (outcome_of matching)

abbrev band : ℕ → String → Bool → Option Decimal → GradeBand
band threshold symbol passing points = record {
  minimum_score = whole threshold;
  symbol = symbol;
  passing = passing;
  grade_points = points;
}

-- `Decimal("2.5")` and its like: a number of tenths
abbrev tenths : ℕ → Option Decimal
tenths n = some (finite (pos n) 1)

abbrev points : ℕ → Option Decimal
points n = some (whole n)

abbrev template_kind : GradingScaleTemplate → GradingScaleKind
template_kind GradingScaleTemplate.percentage = GradingScaleKind.percentage
template_kind GradingScaleTemplate.ects = GradingScaleKind.ects
template_kind GradingScaleTemplate.five_point = GradingScaleKind.five_point
template_kind GradingScaleTemplate.pass_fail = GradingScaleKind.pass_fail

abbrev template_bounds : GradingScaleTemplate → ℕ × ℕ
template_bounds GradingScaleTemplate.percentage = (0, 100)
template_bounds GradingScaleTemplate.ects = (0, 100)
template_bounds GradingScaleTemplate.five_point = (1, 5)
template_bounds GradingScaleTemplate.pass_fail = (0, 1)

abbrev template_bands : GradingScaleTemplate → List GradeBand
template_bands GradingScaleTemplate.percentage =
    band 0 "F" false (points 0)
    ∷ band 60 "D" true (points 1)
    ∷ band 70 "C" true (points 2)
    ∷ band 80 "B" true (points 3)
    ∷ band 90 "A" true (points 4)
    ∷ []
template_bands GradingScaleTemplate.ects =
    band 0 "F" false (points 0)
    ∷ band 40 "FX" false (points 0)
    ∷ band 50 "E" true (tenths 20)
    ∷ band 60 "D" true (tenths 25)
    ∷ band 70 "C" true (tenths 30)
    ∷ band 80 "B" true (tenths 35)
    ∷ band 90 "A" true (tenths 40)
    ∷ []
template_bands GradingScaleTemplate.five_point =
    band 1 "1" false (points 0)
    ∷ band 2 "2" false (points 0)
    ∷ band 3 "3" true (points 2)
    ∷ band 4 "4" true (points 3)
    ∷ band 5 "5" true (points 4)
    ∷ []
template_bands GradingScaleTemplate.pass_fail =
    band 0 "Fail" false none ∷ band 1 "Pass" true none ∷ []

-- The bands pass their own checks, which read no argument.
unfoldable pub build_scale_from_template :
    (String → String) → Uuid → Uuid → String → GradingScaleTemplate → Result GradingScale
build_scale_from_template casefold scale_id organization_id name template =
    check_scale casefold (record {
      id = scale_id;
      organization_id = organization_id;
      name = name;
      kind = template_kind template;
      minimum_score = whole (template_bounds template).0;
      maximum_score = whole (template_bounds template).1;
      bands = template_bands template;
    })
