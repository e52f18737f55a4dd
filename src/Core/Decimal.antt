-- ===== src/Core/Decimal.antt =====
-- Python's `Decimal`. The digits of the sources' values stay far below the 28 of the context, so
-- sums and products are exact, and a finite value is an integer over a power of ten. NaN and the
-- infinities are one value: the models refuse them by `is_finite` before they compare or compute.
use native.Mathlib.Nat.{
  add-suc, add-zero, le_of_mul-le-mul_right, mul-le-mul_right, mul-one, one-le-pow, pow-suc,
  pow-zero,
}
use native.Mathlib.Numerals.{towards_suc}
use onwlms.Prelude.{
  Bool, ap, arith, false, nat_eq, not, pair_eq, refl, string_eq, suc, true, zero, ℕ, ◌&&◌, ◌*◌, ◌+◌,
  ◌<◌, ◌^◌, ◌↔◌, ◌≡◌, ◌≤◌,
}
use onwlms.Prelude.Int.{+ℤ_parts, leb_ℤ, neg_part, negsuc, pos, pos_part, sub_ℕ, ℤ, ◌*ℤ◌, ◌+ℤ◌}

-- `finite c s` is c / 10 ^ s.
pub data Decimal : Type 0 where
  finite : ℤ → ℕ → Decimal
  special : Decimal

abbrev pub is_finite : Decimal → Bool
is_finite (finite c s) = true
is_finite special = false

-- `Decimal(n)`
abbrev pub whole : ℕ → Decimal
whole n = finite (pos n) 0

-- A coefficient brought to more digits after the point.
scaled : ℤ → ℕ → ℤ
scaled (pos n) t = pos (n * t)
scaled (negsuc n) t = sub_ℕ 0 (suc n * t)

-- `a <= b`
unfoldable pub at_most : Decimal → Decimal → Bool
unfolding scaled
at_most (finite c s) (finite d t) = leb_ℤ (scaled c (10 ^ t)) (scaled d (10 ^ s))
at_most _ _ = false

-- `a < b`
abbrev pub is_below : Decimal → Decimal → Bool
is_below a b = at_most a b && not (at_most b a)

-- `a == b`
abbrev pub same_value : Decimal → Decimal → Bool
same_value a b = at_most a b && at_most b a

infixl 65 ◌+d◌
unfoldable pub ◌+d◌ : Decimal → Decimal → Decimal
unfolding scaled
finite c s +d finite d t = finite (scaled c (10 ^ t) +ℤ scaled d (10 ^ s)) (s + t)
_ +d _ = special

infixl 70 ◌*d◌
unfoldable pub ◌*d◌ : Decimal → Decimal → Decimal
unfolding ◌*ℤ◌
finite c s *d finite d t = finite (c *ℤ d) (s + t)
_ *d _ = special

scaled-pos_part : (c : ℤ) (t : ℕ) → pos_part (scaled c t) ≡ pos_part c * t
unfolding scaled
scaled-pos_part (pos n) t = refl
scaled-pos_part (negsuc n) t = ground arith

scaled-neg_part : (c : ℤ) (t : ℕ) → neg_part (scaled c t) ≡ neg_part c * t
unfolding scaled
scaled-neg_part (pos n) t = ground arith
scaled-neg_part (negsuc n) t = ground arith

-- The order as the products that it compares.
at_most_iff :
    (c d : ℤ) (s t : ℕ)
    → (at_most (finite c s) (finite d t) ≡ true)
      ↔ (pos_part c * 10 ^ t + neg_part d * 10 ^ s ≤ pos_part d * 10 ^ s + neg_part c * 10 ^ t)
unfolding at_most
at_most_iff c d s t = ground (
  arith,
  scaled-pos_part c (10 ^ t),
  scaled-neg_part c (10 ^ t),
  scaled-pos_part d (10 ^ s),
  scaled-neg_part d (10 ^ s),
)

pub below_special : (a : Decimal) → at_most a special ≡ true → ⊥
unfolding at_most
below_special (finite c s) h = cc
below_special special h = cc

pub above_special : (a : Decimal) → at_most special a ≡ true → ⊥
unfolding at_most
above_special a h = cc

-- Crossed multiples: an order of three fractions over x, y and z.
cross_trans :
    (p n q m r k x y z : ℕ)
    → 0 < y
    → p * y + m * x ≤ q * x + n * y
    → q * z + k * y ≤ r * y + m * z
    → p * z + k * x ≤ r * x + n * z
cross_trans p n q m r k x y z h f g =
    le_of_mul-le-mul_right {k = y} (omega (arith, mul-le-mul_right z f, mul-le-mul_right x g)) h

pow-pos : (s : ℕ) → 0 < 10 ^ s
pow-pos s = one-le-pow s 10 (omega arith)

pub at_most_trans : (a b c : Decimal) → at_most a b ≡ true → at_most b c ≡ true → at_most a c ≡ true
at_most_trans (finite a x) (finite b y) (finite c z) f g = (at_most_iff a c x z).1 (
    cross_trans (pos_part a) (neg_part a) (pos_part b) (neg_part b) (pos_part c) (neg_part c)
      (10 ^ x) (10 ^ y) (10 ^ z) (pow-pos y) ((at_most_iff a b x y).0 f)
      ((at_most_iff b c y z).0 g))
at_most_trans special b c f g = absurd (above_special b f)
at_most_trans a special c f g = absurd (below_special a f)
at_most_trans a b special f g = absurd (below_special b g)

pub at_most_total :
    (a b : Decimal)
    → is_finite a ≡ true
    → is_finite b ≡ true
    → at_most a b ≡ false
    → at_most b a ≡ true
unfolding at_most
at_most_total (finite a x) (finite b y) f g h =
    ground (arith, at_most_iff a b x y, at_most_iff b a y x)
at_most_total special b f g h = ground arith
at_most_total a special f g h = ground arith

pow-add : (s t : ℕ) → 10 ^ (s + t) ≡ 10 ^ s * 10 ^ t
pow-add s zero = simp (towards_suc, pow-zero, mul-one)
pow-add s (suc t) = simp (add-suc, pow-suc) (omega (arith, ap (λ n. n * 10) (pow-add s t)))

-- Crossed multiples of sums, over x and z on the left and over y and w on the right.
cross_add :
    (p n a a' c c' q m b b' d d' x y z w : ℕ)
    → p + a' * z + c' * x ≡ n + a * z + c * x
    → q + b' * w + d' * y ≡ m + b * w + d * y
    → a * y + b' * x ≤ b * x + a' * y
    → c * w + d' * z ≤ d * z + c' * w
    → p * (y * w) + m * (x * z) ≤ q * (x * z) + n * (y * w)
cross_add p n a a' c c' q m b b' d d' x y z w e e' f g = omega (
  arith,
  ap (λ t. t * (y * w)) e,
  ap (λ t. t * (x * z)) e',
  mul-le-mul_right (z * w) f,
  mul-le-mul_right (x * y) g,
)

+ℤ-scaled :
    (c d : ℤ) (x z : ℕ)
    → pos_part (scaled c z +ℤ scaled d x) + neg_part c * z + neg_part d * x
      ≡ neg_part (scaled c z +ℤ scaled d x) + pos_part c * z + pos_part d * x
+ℤ-scaled c d x z = omega (
  arith,
  +ℤ_parts (scaled c z) (scaled d x),
  scaled-pos_part c z,
  scaled-neg_part c z,
  scaled-pos_part d x,
  scaled-neg_part d x,
)

-- Sums keep the order.
pub +d-mono :
    (a b c d : Decimal) → at_most a b ≡ true → at_most c d ≡ true → at_most (a +d c) (b +d d) ≡ true
unfolding ◌+d◌
+d-mono (finite a x) (finite b y) (finite c z) (finite d w) f g =
    (at_most_iff _ _ (x + z) (y + w)).1 (
      rw (pow-add x z, pow-add y w)
        (cross_add _ _ (pos_part a) (neg_part a) (pos_part c) (neg_part c) _ _ (pos_part b)
          (neg_part b) (pos_part d) (neg_part d) (10 ^ x) (10 ^ y) (10 ^ z) (10 ^ w)
          (+ℤ-scaled a c (10 ^ x) (10 ^ z)) (+ℤ-scaled b d (10 ^ y) (10 ^ w))
          ((at_most_iff a b x y).0 f) ((at_most_iff c d z w).0 g)))
+d-mono special b c d f g = absurd (above_special b f)
+d-mono (finite a x) special c d f g = absurd (below_special (finite a x) f)
+d-mono (finite a x) (finite b y) special d f g = absurd (above_special d g)
+d-mono (finite a x) (finite b y) (finite c z) special f g = absurd (below_special (finite c z) g)

-- Adding zero keeps a value, at least.
+d-zero : (a : Decimal) → is_finite a ≡ true → at_most a (a +d whole 0) ≡ true
unfolding ◌+d◌
+d-zero (finite c s) h =
    (at_most_iff c (scaled c (10 ^ 0) +ℤ scaled (pos 0) (10 ^ s)) s (s + 0)).1 (
      rw (add-zero s) (omega (arith, ap (λ n. n * 10 ^ s) (+ℤ-scaled c (pos 0) (10 ^ s) (10 ^ 0)))))
+d-zero special h = cc

below_finite : (a b : Decimal) → at_most a b ≡ true → is_finite a ≡ true
below_finite (finite c s) b h = refl
below_finite special b h = absurd (above_special b h)

-- Adding what is not negative keeps an upper bound.
pub +d-above :
    (a b c : Decimal) → at_most a b ≡ true → at_most (whole 0) c ≡ true → at_most a (b +d c) ≡ true
+d-above a b c h pos_c =
    at_most_trans a (a +d whole 0) (b +d c) (+d-zero a (below_finite a b h))
      (+d-mono a b (whole 0) c h pos_c)
