-- ===== src/Prelude/Sums.antt =====
-- Lengths of lists, sums over them and different keys, and what sorting does to these.
use mathlib.Core.Path.{ap₂}
use onwlms.Prelude.{
  Bool, List, [], ap, arith, contains, count, filter, inl, inr, insert_sorted, is_unique, length,
  map, nat_eq, not, pair_eq, refl, sort, string_eq, true, ℕ, ◌&&◌, ◌++◌, ◌+◌, ◌==◌, ◌||◌, ◌∙◌, ◌∷◌,
  ◌≡◌,
}
use onwlms.Prelude.Quantifiers.{Member}

pub length-snoc : {A : Type 0} (xs : List A) (x : A) → length (xs ++ x ∷ []) ≡ length xs + 1
length-snoc [] x = omega arith
length-snoc (y ∷ ys) x = omega (arith, length-snoc ys x)

length-insert_sorted :
    {A : Type 0} (below : A → A → Bool) (x : A) (xs : List A)
    → length (insert_sorted below x xs) ≡ length xs + 1
length-insert_sorted below x [] = omega arith
length-insert_sorted below x (y ∷ ys) = ground (arith, length-insert_sorted below x ys)

pub length-sort :
    {A : Type 0} (below : A → A → Bool) (xs : List A) → length (sort below xs) ≡ length xs
length-sort below [] = refl
length-sort below (x ∷ xs) =
    omega (arith, length-insert_sorted below x (sort below xs), length-sort below xs)

-- `sum(f(x) for x in xs)`
abbrev pub sum_of : {A : Type 0} → (A → ℕ) → List A → ℕ
sum_of f [] = 0
sum_of f (x ∷ xs) = f x + sum_of f xs

sum_of-insert_sorted :
    {A : Type 0} (f : A → ℕ) (below : A → A → Bool) (x : A) (xs : List A)
    → sum_of f (insert_sorted below x xs) ≡ f x + sum_of f xs
sum_of-insert_sorted f below x [] = refl
sum_of-insert_sorted f below x (y ∷ ys) = ground (arith, sum_of-insert_sorted f below x ys)

pub sum_of-sort :
    {A : Type 0} (f : A → ℕ) (below : A → A → Bool) (xs : List A)
    → sum_of f (sort below xs) ≡ sum_of f xs
sum_of-sort f below [] = refl
sum_of-sort f below (x ∷ xs) =
    omega (arith, sum_of-insert_sorted f below x (sort below xs), sum_of-sort f below xs)

-- Sorting keeps keys different.
contains-map-insert :
    {A : Type 0} (f : A → ℕ) (below : A → A → Bool) (k : ℕ) (x : A) (xs : List A)
    → contains k (map f (insert_sorted below x xs)) ≡ (f x == k || contains k (map f xs))
contains-map-insert f below k x [] = refl
contains-map-insert f below k x (y ∷ ys) = ground (arith, contains-map-insert f below k x ys)

unique-map-insert :
    {A : Type 0} (f : A → ℕ) (below : A → A → Bool) (x : A) (xs : List A)
    → is_unique (map f (insert_sorted below x xs)) ≡ is_unique (map f (x ∷ xs))
unique-map-insert f below x [] = refl
unique-map-insert f below x (y ∷ ys) =
    ground (arith, unique-map-insert f below x ys, contains-map-insert f below (f y) x ys)

contains-map-sort :
    {A : Type 0} (f : A → ℕ) (below : A → A → Bool) (k : ℕ) (xs : List A)
    → contains k (map f (sort below xs)) ≡ contains k (map f xs)
contains-map-sort f below k [] = refl
contains-map-sort f below k (x ∷ xs) =
    contains-map-insert f below k x (sort below xs)
    ∙ ap (λ b. f x == k || b) (contains-map-sort f below k xs)

pub unique-map-sort :
    {A : Type 0} (f : A → ℕ) (below : A → A → Bool) (xs : List A)
    → is_unique (map f (sort below xs)) ≡ is_unique (map f xs)
unique-map-sort f below [] = refl
unique-map-sort f below (x ∷ xs) =
    unique-map-insert f below x (sort below xs)
    ∙ ap₂ (λ b c. not b && c) (contains-map-sort f below (f x) xs) (unique-map-sort f below xs)

-- How many of a list pass a test.
module _ {A : Type 0} (p : A → Bool) where
  count-insert_sorted :
      (below : A → A → Bool) (x : A) (xs : List A)
      → count p (insert_sorted below x xs) ≡ count p (x ∷ xs)
  count-insert_sorted below x [] = refl
  count-insert_sorted below x (y ∷ ys) = ground (arith, count-insert_sorted below x ys)

  pub count-sort : (below : A → A → Bool) (xs : List A) → count p (sort below xs) ≡ count p xs
  count-sort below [] = refl
  count-sort below (x ∷ xs) =
      ground (arith, count-insert_sorted below x (sort below xs), count-sort below xs)

  pub length-filter : (xs : List A) → length (filter p xs) ≡ count p xs
  length-filter [] = refl
  length-filter (x ∷ xs) = ground (arith, length-filter xs)

  pub count-filter :
      (q : A → Bool) (xs : List A) → count q (filter p xs) ≡ count (λ x. p x && q x) xs
  count-filter q [] = refl
  count-filter q (x ∷ xs) = ground (arith, count-filter q xs)

pub sum_of-ext :
    {A : Type 0} (f g : A → ℕ) (xs : List A) → ((x : A) → f x ≡ g x) → sum_of f xs ≡ sum_of g xs
sum_of-ext f g [] h = refl
sum_of-ext f g (x ∷ xs) h = omega (arith, h x, sum_of-ext f g xs h)

pub contains-Member :
    {A : Type 0} (f : A → ℕ) (x : A) (xs : List A) → Member x xs → contains (f x) (map f xs) ≡ true
contains-Member f x [] m = elim m [ ]
contains-Member f x (y ∷ ys) (inl e) = ground (arith, ap f e)
contains-Member f x (y ∷ ys) (inr m) = ground (arith, contains-Member f x ys m)
