-- ===== src/Entitlements/Entitled.antt =====
-- Who is entitled to a feature, and that `resolve_for_organization` of
-- backend/src/entitlements/application/service.py enables exactly that.
use mathlib.Core.Bool.{false, false≢true, true}
use onwlms.Prelude.{
  Bool-cases, Option, ap, arith, inl, inr, nat_eq, none, pair_eq, refl, some, string_eq, sym, ◌↔◌,
  ◌∙◌, ◌≡◌, ◌⊎◌,
}
use onwlms.Prelude.Dict.{lookup}
use onwlms.Core.{Result, Uuid, ok}
use onwlms.Core.Time.{DateTime, has_no_tzinfo}
use onwlms.Entitlements.Models.{
  EntitlementOverride, FeatureCode, ResolvedEntitlement, feature_eq, is_base, override_is_effective,
  subscription_eq, until_end,
}
use onwlms.Entitlements.Resolution.{IsTables, find-row, only_if}
use onwlms.Entitlements.Resolve.{
  resolve_for_organization, resolve_override, resolve_snapshot, resolved,
}
use onwlms.Entitlements.Subscribed.{Subscribed, plan_answer, plan_iff}
use onwlms.Entitlements.Tables.{Tables, get_snapshot}

module _ (t : Tables) (org : Uuid) (f : FeatureCode) (at : DateTime) where
  -- The override of the organization for the feature, if it has not expired.
  abbrev pub Overrides : EntitlementOverride → Type 0
  Overrides o = (lookup (org, f) t.overrides ≡ some o) × (until_end at o.expires_at ≡ true)

  -- A base feature, or one that an override enables, or one of the plan that no override decides.
  abbrev pub Entitled : Type 0
  Entitled =
      (is_base f ≡ true)
      ⊎ ((o : EntitlementOverride) × Overrides o × (o.enabled ≡ true))
      ⊎ (((o : EntitlementOverride) → Overrides o → ⊥) × Subscribed t org f at)

  resolve-row :
      IsTables t
      → resolve_snapshot f at (get_snapshot org t)
        ≡ resolve_override f at
            (get_snapshot org t)
            (only_if (λ o. override_is_effective o at) (lookup (org, f) t.overrides))
  unfolding resolve_snapshot get_snapshot
  resolve-row k = ap (resolve_override f at (get_snapshot org t)) (
      find-row (λ (o : EntitlementOverride). o.organization_id) (λ o. o.feature) org f
        (λ o. override_is_effective o at) t.overrides k.overrides)

  -- The answer for a feature that is not a base feature.
  row_answer : Option EntitlementOverride → ResolvedEntitlement
  unfolding get_snapshot
  row_answer row =
      resolve_override f at (get_snapshot org t) (only_if (λ o. override_is_effective o at) row)

  Decided : Option EntitlementOverride → Type 0
  Decided row =
      ((o : EntitlementOverride) × ((row ≡ some o) × (until_end at o.expires_at ≡ true))
        × (o.enabled ≡ true))
      ⊎ (((o : EntitlementOverride) → (row ≡ some o) × (until_end at o.expires_at ≡ true) → ⊥)
          × ((plan_answer t org f at).enabled ≡ true))

  row_valid :
      (o : EntitlementOverride)
      → until_end at o.expires_at ≡ true
      → (row_answer (some o)).enabled ≡ o.enabled
  unfolding row_answer
  row_valid o h = rw h

  row_over :
      (o : EntitlementOverride)
      → until_end at o.expires_at ≡ false
      → (row_answer (some o)).enabled ≡ (plan_answer t org f at).enabled
  unfolding row_answer plan_answer
  row_over o h = rw h

  same_row : {o o' : EntitlementOverride} → some o ≡ some o' → o ≡ o'
  same_row e = cc

  same_end :
      (o o' : EntitlementOverride)
      → some o ≡ some o'
      → until_end at o.expires_at ≡ false
      → until_end at o'.expires_at ≡ true
      → ⊥
  same_end o o' e over valid =
      false≢true (
        sym over ∙ ap (λ (o : EntitlementOverride). until_end at o.expires_at) (same_row e) ∙ valid)

  row_iff : (row : Option EntitlementOverride) → ((row_answer row).enabled ≡ true) ↔ Decided row
  unfolding row_answer plan_answer Decided
  row_iff none = (
    λ h. inr (λ o h. ground (arith, h.0), h),
    λ h. elim h [ inl (o, (e, v), enabled) ↦ absurd (ground (arith, e)) | inr (free, p) ↦ p ],
  )
  row_iff (some o) = elim (Bool-cases (until_end at o.expires_at)) [
    | inl valid ↦ (
      λ h. inl (o, (refl, valid), sym (row_valid o valid) ∙ h),
      λ h. elim h [
        | inl (o', (e, v), enabled) ↦
            row_valid o valid ∙ ap (λ (o : EntitlementOverride). o.enabled) (same_row e) ∙ enabled
        | inr (free, p) ↦ absurd (free o (refl, valid))
      ],
    )
    | inr over ↦ (
      λ h. inr ((λ o' (e, v). same_end o o' e over v), sym (row_over o over) ∙ h),
      λ h. elim h [
        | inl (o', (e, v), enabled) ↦ absurd (same_end o o' e over v)
        | inr (free, p) ↦ row_over o over ∙ p
      ],
    )
  ]

  base_answer :
      has_no_tzinfo at ≡ false
      → is_base f ≡ true
      → resolve_for_organization org f at t ≡ ok (resolved f true "base_product" none)
  unfolding resolve_for_organization
  base_answer aware h = rw (aware, h)

  other_answer :
      IsTables t
      → has_no_tzinfo at ≡ false
      → is_base f ≡ false
      → resolve_for_organization org f at t ≡ ok (row_answer (lookup (org, f) t.overrides))
  unfolding resolve_for_organization row_answer
  other_answer k aware h = rw (aware, h) (ap (λ r. ok r) (resolve-row k))

  same_answer :
      {r q : ResolvedEntitlement} {m : Result ResolvedEntitlement} → m ≡ ok q → m ≡ ok r → q ≡ r
  same_answer e g = cc

  -- On tables whose rows stand under their own keys, at an aware time, a feature is enabled for an
  -- organization exactly when the organization is entitled to it.
  pub resolve_entitled_iff :
      IsTables t
      → has_no_tzinfo at ≡ false
      → ((r : ResolvedEntitlement) × (resolve_for_organization org f at t ≡ ok r)
          × (r.enabled ≡ true))
        ↔ Entitled
  unfolding Decided
  resolve_entitled_iff k aware = elim (Bool-cases (is_base f)) [
    | inl base ↦
        (λ h. inl base, λ h. (resolved f true "base_product" none, base_answer aware base, refl))
    | inr other ↦ (forward other, backward other)
  ]
    where
      row : Option EntitlementOverride
      row = lookup (org, f) t.overrides

      forward :
          is_base f ≡ false
          → ((r : ResolvedEntitlement) × (resolve_for_organization org f at t ≡ ok r)
              × (r.enabled ≡ true))
          → Entitled
      forward other (r, e, enabled) =
          let same = same_answer (other_answer k aware other) e in
          elim ((row_iff row).0 (ap (λ r. r.enabled) same ∙ enabled)) [
            | inl decided ↦ inr (inl decided)
            | inr (free, p) ↦ inr (inr (free, (plan_iff t org f at k).0 p))
          ]

      backward :
          is_base f ≡ false
          → Entitled
          → (r : ResolvedEntitlement) × (resolve_for_organization org f at t ≡ ok r)
            × (r.enabled ≡ true)
      backward other (inl base) = absurd (false≢true (sym other ∙ base))
      backward other (inr (inl decided)) =
          (row_answer row, other_answer k aware other, (row_iff row).1 (inl decided))
      backward other (inr (inr (free, subscribed))) = (
        row_answer row,
        other_answer k aware other,
        (row_iff row).1 (inr (free, (plan_iff t org f at k).1 subscribed)),
      )
