-- ===== src/Prelude/Dict.antt =====
-- Python's `dict` in insertion order: an assignment to a key that is there keeps its place.
use onwlms.Prelude.{
  ℕ, ◌+◌, ◌≤◌, ◌≡◌, refl, Bool, true, false, Option, none, some, List, [], ◌∷◌, ◌++◌, ◌⊎◌, arith,
  Eq, ◌==◌, if◌then◌else◌, count, is_some,
}

abbrev pub Dict {ℓ κ} : Type ℓ → Type κ → Type (ℓ ⊔ κ)
Dict K V = List (K × V)

-- `d.values()`
abbrev pub values {ℓ κ} : {K : Type ℓ} {V : Type κ} → Dict K V → List V
values [] = []
values ((k, v) ∷ d) = v ∷ values d

abbrev pub to_ℕ : Bool → ℕ
to_ℕ true = 1
to_ℕ false = 0

pub to_ℕ-le : (b : Bool) → to_ℕ b ≤ 1
to_ℕ-le b = ground arith

pub beq_refl {ℓ} : {K : Type ℓ} ⦃e : Eq K⦄ (k : K) → (k == k) ≡ true
beq_refl ⦃e⦄ k = (e.beq_iff k k).1 refl

module _ {ℓ κ} {K : Type ℓ} {V : Type κ} ⦃e : Eq K⦄ where
  -- `d.get(k)`
  unfoldable pub lookup : K → Dict K V → Option V
  lookup k [] = none
  lookup k ((j, v) ∷ d) = if j == k then some v else lookup k d

  -- `k in d`
  abbrev pub has_key : K → Dict K V → Bool
  has_key k d = is_some (lookup k d)

  -- `d[k] = v`
  unfoldable pub insert : K → V → Dict K V → Dict K V
  insert k v [] = (k, v) ∷ []
  insert k v ((j, w) ∷ d) = if j == k then (j, v) ∷ d else (j, w) ∷ insert k v d

  pub lookup-insert :
      (k j : K) (v : V) (d : Dict K V)
      → lookup j (insert k v d) ≡ (if k == j then some v else lookup j d)
  unfolding lookup insert
  lookup-insert k j v [] = refl
  lookup-insert k j v ((i, w) ∷ d) =
      ground (arith, e.beq_iff k j, e.beq_iff i k, e.beq_iff i j, lookup-insert k j v d)

  pub lookup-insert_self : (k : K) (v : V) (d : Dict K V) → lookup k (insert k v d) ≡ some v
  lookup-insert_self k v d = ground (arith, lookup-insert k k v d, beq_refl k)

  -- What is found after a store is the new value, or what was there.
  pub lookup-insert-cases :
      (k j : K) (v u : V) (d : Dict K V)
      → lookup j (insert k v d) ≡ some u
      → ((j ≡ k) × (u ≡ v)) ⊎ (((k == j) ≡ false) × (lookup j d ≡ some u))
  lookup-insert-cases k j v u d h = ground (arith, lookup-insert k j v d, e.beq_iff k j)

  -- A new key goes to the end.
  pub values-insert_new :
      (k : K) (v : V) (d : Dict K V)
      → lookup k d ≡ none
      → values (insert k v d) ≡ values d ++ v ∷ []
  unfolding lookup insert
  values-insert_new k v [] h = refl
  values-insert_new k v ((i, w) ∷ d) h = ground (arith, values-insert_new k v d)

  -- Storing under a new key counts the new value.
  pub count-insert_new :
      (p : V → Bool) (k : K) (v : V) (d : Dict K V)
      → lookup k d ≡ none
      → count p (values (insert k v d)) ≡ count p (values d) + to_ℕ (p v)
  unfolding lookup insert
  count-insert_new p k v [] h = ground arith
  count-insert_new p k v ((i, w) ∷ d) h = ground (arith, count-insert_new p k v d)

  -- Storing over an old value counts the new one in its place.
  pub count-insert_old :
      (p : V → Bool) (k : K) (v old : V) (d : Dict K V)
      → lookup k d ≡ some old
      → count p (values (insert k v d)) + to_ℕ (p old) ≡ count p (values d) + to_ℕ (p v)
  unfolding lookup insert
  count-insert_old p k v old [] h = ground arith
  count-insert_old p k v old ((i, w) ∷ d) h = ground (arith, count-insert_old p k v old d)

  pub count-insert-le :
      (p : V → Bool) (k : K) (v : V) (d : Dict K V)
      → count p (values (insert k v d)) ≤ count p (values d) + to_ℕ (p v)
  unfolding lookup insert
  count-insert-le p k v [] = ground arith
  count-insert-le p k v ((i, w) ∷ d) = ground (arith, count-insert-le p k v d)

-- `d.pop(k, None)`, for the dictionary that it leaves
module _ {ℓ κ} {K : Type ℓ} {V : Type κ} ⦃e : Eq K⦄ where
  unfoldable pub remove : K → Dict K V → Dict K V
  remove k [] = []
  remove k ((j, v) ∷ d) = let rest = remove k d in if j == k then rest else (j, v) ∷ rest

  pub lookup-remove :
      (k j : K) (d : Dict K V) → lookup j (remove k d) ≡ (if k == j then none else lookup j d)
  unfolding lookup remove
  lookup-remove k j [] = ground arith
  lookup-remove k j ((i, w) ∷ d) =
      ground (arith, e.beq_iff k j, e.beq_iff i k, e.beq_iff i j, lookup-remove k j d)

-- `{key(x): x for x in xs}`
module _ {ℓ κ} {K : Type ℓ} {V : Type κ} ⦃e : Eq K⦄ where
  abbrev pub insert_all : (V → K) → List V → Dict K V → Dict K V
  insert_all key [] d = d
  insert_all key (x ∷ xs) d = insert_all key xs (insert (key x) x d)
