-- ===== src/Entitlements/Resolution.antt =====
-- Which row decides a feature: `resolve_for_organization` of
-- backend/src/entitlements/application/service.py.
use onwlms.Prelude.{
  Bool, Eq, List, Option, [], arith, filter, find, if◌then◌else◌, is_some, nat_beq_iff, nat_eq,
  none, pair_beq_iff, pair_eq, refl, some, string_eq, sym, true, ◌&&◌, ◌==◌, ◌↔◌, ◌∙◌, ◌∷◌, ◌≡◌,
}
use onwlms.Prelude.Dict.{Dict, lookup, values}
use onwlms.Prelude.Quantifiers.{Any, Any-mono}
use onwlms.Core.{Uuid}
use onwlms.Entitlements.Models.{
  EntitlementOverride, Feature, FeatureCode, Plan, PlanGrant, Subscription, feature_eq,
  subscription_eq,
}
use onwlms.Entitlements.Resolve.{resolve_grant}
use onwlms.Entitlements.Tables.{Tables}

-- Every row stands under its own key, once.
abbrev pub OwnKeys : {K V : Type 0} ⦃e : Eq K⦄ → (V → K) → Dict K V → Type 0
OwnKeys key [] = Unit {0}
OwnKeys key ((k, v) ∷ d) = (k ≡ key v) × (lookup k d ≡ none) × OwnKeys key d

abbrev pub override_key : EntitlementOverride → Uuid × FeatureCode
override_key o = (o.organization_id, o.feature)

pub record IsTables (t : Tables) : Type 0 where
  pub features : OwnKeys (λ (f : Feature). f.code) t.features
  pub plans : OwnKeys (λ (p : Plan). p.id) t.plans
  pub subscriptions : OwnKeys (λ (s : Subscription). s.organization_id) t.subscriptions
  pub overrides : OwnKeys override_key t.overrides

-- The row if the test holds of it.
abbrev pub only_if : {V : Type 0} → (V → Bool) → Option V → Option V
only_if p none = none
only_if p (some v) = if p v then some v else none

-- In a table of rows by organization and another column, the first row of an organization with a
-- value in that column is the row under that key.
module _ {F V : Type 0} ⦃e : Eq F⦄ (org_of : V → Uuid) (column : V → F) where
  pub find-row :
      (org : Uuid) (f : F) (p : V → Bool) (d : Dict (Uuid × F) V)
      → OwnKeys (λ v. (org_of v, column v)) d
      → find (λ v. column v == f && p v) (filter (λ v. org_of v == org) (values d))
        ≡ only_if p (lookup (org, f) d)
  unfolding lookup
  find-row org f p [] h = refl
  find-row org f p ((k, v) ∷ d) (key, fresh, h) = ground (
    arith,
    find-row org f p d h,
    fresh,
    key,
    pair_beq_iff k (org, f),
    e.beq_iff (column v) f,
    nat_beq_iff (org_of v) org,
  )

-- A row stands under its own key.
pub OwnKeys-lookup :
    {K V : Type 0} ⦃e : Eq K⦄ (key : V → K) (d : Dict K V) (k : K) (v : V)
    → OwnKeys key d
    → lookup k d ≡ some v
    → k ≡ key v
unfolding lookup
OwnKeys-lookup key [] k v h found = absurd (ground arith)
OwnKeys-lookup ⦃e⦄ key ((j, w) ∷ d) k v (own, fresh, h) found =
    ground (arith, OwnKeys-lookup key d k v h, own, found, e.beq_iff j k)

find-some :
    {A : Type 0} (p : A → Bool) (xs : List A)
    → (is_some (find p xs) ≡ true) ↔ Any (λ x. p x ≡ true) xs
find-some p [] = (λ h. absurd (ground arith), λ h. elim h [ ])
find-some p (x ∷ xs) = ground (arith, find-some p xs)

grant-enabled : (f : FeatureCode) (o : Option PlanGrant) → (resolve_grant f o).enabled ≡ is_some o
grant-enabled f none = refl
grant-enabled f (some g) = refl

pub find-grant :
    (f : FeatureCode) (gs : List PlanGrant)
    → ((resolve_grant f (find (λ g. g.feature == f) gs)).enabled ≡ true)
      ↔ Any (λ g. g.feature ≡ f) gs
find-grant f gs = (
  λ h.
      Any-mono (λ g. (feature_eq.beq_iff g.feature f).0) gs
        ((find-some _ gs).0 (sym (grant-enabled f _) ∙ h)),
  λ h.
      grant-enabled f _
      ∙ (find-some _ gs).1 (Any-mono (λ g. (feature_eq.beq_iff g.feature f).1) gs h),
)
