-- ===== src/Prelude/Quantifiers.antt =====
-- What the Boolean tests over lists say: `All` and `Any`, membership, and lists with nothing in
-- common.
use mathlib.Core.Path.{subst}
use onwlms.Prelude.{
  All, Bool, Eq, List, [], all, any, ap, arith, contains, distinct, false, filter, inl, inr,
  insert_sorted, intersection, nat_eq, pair_eq, refl, sort, string_eq, true, ◌&&◌, ◌++◌, ◌==◌, ◌||◌,
  ◌↔◌, ◌∙◌, ◌∷◌, ◌≡◌, ◌⊎◌,
}

module _ {A : Type 0} where
  abbrev pub Any : (A → Type 0) → List A → Type 0
  Any P [] = ⊥
  Any P (x ∷ xs) = P x ⊎ Any P xs

  -- `x in xs`
  abbrev pub Member : A → List A → Type 0
  Member x xs = Any (λ y. y ≡ x) xs

  abbrev pub Disjoint : List A → List A → Type 0
  Disjoint xs ys = (x : A) → Member x xs → Member x ys → ⊥

  pub any-true : (p : A → Bool) (xs : List A) → (any p xs ≡ true) ↔ Any (λ x. p x ≡ true) xs
  any-true p [] = (λ h. cc, λ h. elim h [ ])
  any-true p (x ∷ xs) = ground (arith, any-true p xs)

  pub any-false : (p : A → Bool) (xs : List A) → (any p xs ≡ false) ↔ All (λ x. p x ≡ false) xs
  any-false p [] = (λ h. tt, λ h. refl)
  any-false p (x ∷ xs) = ground (arith, any-false p xs)

  pub all-true : (p : A → Bool) (xs : List A) → (all p xs ≡ true) ↔ All (λ x. p x ≡ true) xs
  all-true p [] = (λ h. tt, λ h. refl)
  all-true p (x ∷ xs) = ground (arith, all-true p xs)

  pub All-mono : {P Q : A → Type 0} (f : (x : A) → P x → Q x) (xs : List A) → All P xs → All Q xs
  All-mono f [] h = tt
  All-mono f (x ∷ xs) h = (f x h.0, All-mono f xs h.1)

  pub Any-mono : {P Q : A → Type 0} (f : (x : A) → P x → Q x) (xs : List A) → Any P xs → Any Q xs
  Any-mono f [] h = elim h [ ]
  Any-mono f (x ∷ xs) (inl h) = inl (f x h)
  Any-mono f (x ∷ xs) (inr h) = inr (Any-mono f xs h)

  -- Over every member, one by one.
  pub All-of : (P : A → Type 0) (xs : List A) → ((x : A) → Member x xs → P x) → All P xs
  All-of P [] f = tt
  All-of P (x ∷ xs) f = (f x (inl refl), All-of P xs (λ y m. f y (inr m)))

  pub All_at : (P : A → Type 0) (xs : List A) → All P xs → (x : A) → Member x xs → P x
  All_at P [] h x m = elim m [ ]
  All_at P (y ∷ xs) h x (inl e) = subst P e h.0
  All_at P (y ∷ xs) h x (inr m) = All_at P xs h.1 x m

  pub append-eq-nil : (xs ys : List A) → ((xs ++ ys) ≡ []) ↔ ((xs ≡ []) × (ys ≡ []))
  append-eq-nil [] ys = (λ h. (refl, h), λ h. h.1)
  append-eq-nil (x ∷ xs) ys = (λ h. cc, λ h. cc h.0)

module _ {A : Type 0} where
  pub Member-filter :
      (p : A → Bool) (x : A) (xs : List A) → Member x (filter p xs) ↔ (Member x xs × (p x ≡ true))
  Member-filter p x [] = (λ h. elim h [ ], λ h. elim (h.0) [ ])
  Member-filter p x (y ∷ ys) = ground (arith, Member-filter p x ys)

module _ {A : Type 0} where
  pub Member-append : (x : A) (xs ys : List A) → Member x (xs ++ ys) ↔ (Member x xs ⊎ Member x ys)
  Member-append x [] ys = (λ h. inr h, λ h. ground arith)
  Member-append x (z ∷ zs) ys = ground (arith, Member-append x zs ys)

  pub Member-snoc :
      (x : A) (xs : List A) (y : A) → Member x (xs ++ y ∷ []) ↔ (Member x xs ⊎ (y ≡ x))
  Member-snoc x xs y = ground (arith, Member-append x xs (y ∷ []))

  pub Member-insert_sorted :
      (below : A → A → Bool) (x y : A) (ys : List A)
      → Member x (insert_sorted below y ys) ↔ ((y ≡ x) ⊎ Member x ys)
  Member-insert_sorted below x y [] = ground arith
  Member-insert_sorted below x y (z ∷ zs) = ground (arith, Member-insert_sorted below x y zs)

  pub Member-sort :
      (below : A → A → Bool) (x : A) (xs : List A) → Member x (sort below xs) ↔ Member x xs
  Member-sort below x [] = (λ h. h, λ h. h)
  Member-sort below x (y ∷ ys) =
      ground (arith, Member-insert_sorted below x y (sort below ys), Member-sort below x ys)

module _ {A B : Type 0} (R : A → B → Type 0) where
  Any-beside :
      (x : A) (xs : List A) (ys : List B) → Any (R x) ys → Any (λ y. Any (λ x. R x y) (x ∷ xs)) ys
  Any-beside x xs ys h = Any-mono (λ y r. inl r) ys h

  -- Two searches, one inside the other, in either order.
  pub Any-swap :
      (xs : List A) (ys : List B) → Any (λ x. Any (R x) ys) xs → Any (λ y. Any (λ x. R x y) xs) ys
  Any-swap [] ys h = elim h [ ]
  Any-swap (x ∷ xs) ys (inl h) = Any-beside x xs ys h
  Any-swap (x ∷ xs) ys (inr h) = Any-mono (λ y r. inr r) ys (Any-swap xs ys h)

module _ {A P Q : Type 0} where
  -- A joined list is empty when both parts are, by what that means for each.
  pub both-nil : {xs ys : List A} → ((xs ≡ []) ↔ P) → ((ys ≡ []) ↔ Q) → ((xs ++ ys) ≡ []) ↔ (P × Q)
  both-nil {xs = xs} {ys = ys} f g = ground (arith, append-eq-nil xs ys, f, g)

-- Two lists of one length whose members are related place by place.
module _ {A B : Type 0} (R : A → B → Type 0) where
  abbrev pub Pointwise : List A → List B → Type 0
  Pointwise [] [] = Unit
  Pointwise (x ∷ xs) (y ∷ ys) = R x y × Pointwise xs ys
  Pointwise _ _ = ⊥

  pub Pointwise-left :
      (xs : List A) (ys : List B)
      → Pointwise xs ys
      → (x : A) → Member x xs
      → (y : B) × Member y ys × R x y
  Pointwise-left [] ys h x m = elim m [ ]
  Pointwise-left (x' ∷ xs) [] h x m = elim h [ ]
  Pointwise-left (x' ∷ xs) (y ∷ ys) (r, h) x (inl e) = (y, inl refl, subst (λ x. R x y) e r)
  Pointwise-left (x' ∷ xs) (y ∷ ys) (r, h) x (inr m) =
      let (z, n, q) = Pointwise-left xs ys h x m in (z, inr n, q)

  pub Pointwise-right :
      (xs : List A) (ys : List B)
      → Pointwise xs ys
      → (y : B) → Member y ys
      → (x : A) × Member x xs × R x y
  Pointwise-right [] [] h y m = elim m [ ]
  Pointwise-right [] (y' ∷ ys) h y m = elim h [ ]
  Pointwise-right (x ∷ xs) [] h y m = elim m [ ]
  Pointwise-right (x ∷ xs) (y' ∷ ys) (r, h) y (inl e) = (x, inl refl, subst (R x) e r)
  Pointwise-right (x ∷ xs) (y' ∷ ys) (r, h) y (inr m) =
      let (z, n, q) = Pointwise-right xs ys h y m in (z, inr n, q)

module _ {A : Type 0} ⦃e : Eq A⦄ where
  pub contains_iff : (a : A) (xs : List A) → (contains a xs ≡ true) ↔ Member a xs
  contains_iff a [] = (λ h. cc, λ h. elim h [ ])
  contains_iff a (x ∷ xs) = ground (arith, e.beq_iff x a, contains_iff a xs)

  pub contains-distinct : (a : A) (xs : List A) → contains a (distinct xs) ≡ contains a xs
  contains-distinct a [] = refl
  contains-distinct a (x ∷ xs) = ground (arith, e.beq_iff x a, contains-distinct a xs)

  contains-filter :
      (p : A → Bool) (a : A) (xs : List A) → contains a (filter p xs) ≡ (contains a xs && p a)
  contains-filter p a [] = refl
  contains-filter p a (x ∷ xs) = ground (arith, e.beq_iff x a, contains-filter p a xs)

  contains-insert_sorted :
      (below : A → A → Bool) (a x : A) (xs : List A)
      → contains a (insert_sorted below x xs) ≡ (x == a || contains a xs)
  contains-insert_sorted below a x [] = refl
  contains-insert_sorted below a x (y ∷ ys) = ground (arith, contains-insert_sorted below a x ys)

  pub contains-sort :
      (below : A → A → Bool) (a : A) (xs : List A) → contains a (sort below xs) ≡ contains a xs
  contains-sort below a [] = refl
  contains-sort below a (x ∷ xs) =
      contains-insert_sorted below a x (sort below xs)
      ∙ ap (λ b. x == a || b) (contains-sort below a xs)

  eq-nil_of_contains : (xs : List A) → ((a : A) → contains a xs ≡ false) → xs ≡ []
  eq-nil_of_contains [] h = refl
  eq-nil_of_contains (x ∷ xs) h = ground (arith, h x, e.beq_iff x x)

  -- A sorted intersection is empty exactly when the lists have nothing in common.
  pub sorted_intersection_nil :
      (below : A → A → Bool) (xs ys : List A)
      → (sort below (intersection xs ys) ≡ []) ↔ Disjoint xs ys
  sorted_intersection_nil below xs ys = (
    λ h a m n. ground (
      arith,
      sorted-contains a,
      ap (contains a) h,
      (contains_iff a xs).1 m,
      (contains_iff a ys).1 n,
    ),
    λ h.
        eq-nil_of_contains _
          λ a. ground (arith, sorted-contains a, contains_iff a xs, contains_iff a ys, h a),
  )
    where
      sorted-contains :
          (a : A) → contains a (sort below (intersection xs ys)) ≡ (contains a xs && contains a ys)
      sorted-contains a =
          contains-sort below a (intersection xs ys)
          ∙ contains-filter (λ x. contains x ys) a (distinct xs)
          ∙ ap (λ b. b && contains a ys) (contains-distinct a xs)
