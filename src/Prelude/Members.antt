-- ===== src/Prelude/Members.antt =====
-- Members of mapped and shortened lists, and of lists with different keys.
use onwlms.Prelude.{
  List, [], ap, arith, contains, inl, inr, is_unique, length, map, nat_eq, pair_eq, refl, string_eq,
  suc, sym, take, true, zero, ℕ, ◌<◌, ◌∙◌, ◌∷◌, ◌≡◌,
}
use onwlms.Prelude.Quantifiers.{Member, Pointwise, contains_iff}
use onwlms.Prelude.Sums.{contains-Member}

module _ {A B : Type 0} (f : A → B) where
  pub map-map : {C : Type 0} (g : B → C) (xs : List A) → map g (map f xs) ≡ map (λ x. g (f x)) xs
  map-map g [] = refl
  map-map g (x ∷ xs) = ap (λ ys. g (f x) ∷ ys) (map-map g xs)

  pub length-map : (xs : List A) → length (map f xs) ≡ length xs
  length-map [] = refl
  length-map (x ∷ xs) = ap suc (length-map xs)

  pub Member-map : (y : B) (xs : List A) → Member y (map f xs) → (x : A) × Member x xs × (f x ≡ y)
  Member-map y [] m = elim m [ ]
  Member-map y (x ∷ xs) (inl e) = (x, inl refl, e)
  Member-map y (x ∷ xs) (inr m) = let (z, n, e) = Member-map y xs m in (z, inr n, e)

  pub Pointwise-map :
      (R : A → B → Type 0) (xs : List A)
      → ((x : A) → Member x xs → R x (f x))
      → Pointwise R xs (map f xs)
  Pointwise-map R [] h = tt
  Pointwise-map R (x ∷ xs) h = (h x (inl refl), Pointwise-map R xs (λ y m. h y (inr m)))

module _ {A : Type 0} where
  pub map_id : (xs : List A) → map (λ x. x) xs ≡ xs
  map_id [] = refl
  map_id (x ∷ xs) = ap (λ ys. x ∷ ys) (map_id xs)

  pub Member-take : (n : ℕ) (x : A) (xs : List A) → Member x (take n xs) → Member x xs
  Member-take zero x xs m = elim m [ ]
  Member-take (suc n) x [] m = elim m [ ]
  Member-take (suc n) x (y ∷ ys) (inl e) = inl e
  Member-take (suc n) x (y ∷ ys) (inr m) = inr (Member-take n x ys m)

  -- A list that is shortened to less than its bound is whole.
  pub Member-take_all :
      (n : ℕ) (x : A) (xs : List A) → length (take n xs) < n → Member x xs → Member x (take n xs)
  Member-take_all zero x xs h m = absurd (omega (arith, h))
  Member-take_all (suc n) x [] h m = elim m [ ]
  Member-take_all (suc n) x (y ∷ ys) h (inl e) = inl e
  Member-take_all (suc n) x (y ∷ ys) h (inr m) = inr (Member-take_all n x ys (omega (arith, h)) m)

module _ {A : Type 0} (key : A → ℕ) where
  pub contains-map :
      (k : ℕ) (xs : List A) → contains k (map key xs) ≡ true → (x : A) × Member x xs × (key x ≡ k)
  contains-map k xs h = Member-map key k xs ((contains_iff k (map key xs)).0 h)

  pub unique_same :
      (xs : List A)
      → is_unique (map key xs) ≡ true
      → (x y : A) → Member x xs
      → Member y xs
      → key x ≡ key y
      → x ≡ y
  unique_same [] h x y m n e = elim m [ ]
  unique_same (z ∷ zs) h x y (inl p) (inl q) e = sym p ∙ q
  unique_same (z ∷ zs) h x y (inl p) (inr n) e =
      absurd (ground (arith, h, ap key p, e, contains-Member key y zs n))
  unique_same (z ∷ zs) h x y (inr m) (inl q) e =
      absurd (ground (arith, h, ap key q, e, contains-Member key x zs m))
  unique_same (z ∷ zs) h x y (inr m) (inr n) e = unique_same zs (ground (arith, h)) x y m n e
