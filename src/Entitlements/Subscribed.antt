-- ===== src/Entitlements/Subscribed.antt =====
-- When the plan of a subscription grants a feature: the last part of
-- `resolve_for_organization` of backend/src/entitlements/application/service.py.
use onwlms.Prelude.{
  Bool, Option-cases, ap, arith, false, find, if◌then◌else◌, inl, inr, nat_beq_iff, nat_eq, none,
  pair_eq, refl, some, string_eq, sym, true, ◌==◌, ◌↔◌, ◌∙◌, ◌≡◌,
}
use onwlms.Prelude.Dict.{lookup}
use onwlms.Prelude.Quantifiers.{Any}
use onwlms.Core.{Uuid}
use onwlms.Core.Time.{DateTime}
use onwlms.Entitlements.Models.{
  FeatureCode, Plan, ResolvedEntitlement, Subscription, feature_eq, subscription_eq,
  subscription_is_effective,
}
use onwlms.Entitlements.Resolution.{IsTables, OwnKeys-lookup, find-grant}
use onwlms.Entitlements.Resolve.{not_entitled, plan_applies, resolve_grant, resolve_plan}
use onwlms.Entitlements.Tables.{Tables, plan_of}

module _ (t : Tables) (org : Uuid) (f : FeatureCode) (at : DateTime) where
  -- The subscription of the organization is effective and its plan, which is active, grants the
  -- feature.
  abbrev pub Subscribed : Type 0
  Subscribed =
      (s : Subscription) × (p : Plan) × (lookup org t.subscriptions ≡ some s)
      × (lookup s.plan_id t.plans ≡ some p)
      × (p.active ≡ true)
      × (subscription_is_effective s at ≡ true)
      × Any (λ g. g.feature ≡ f) p.grants

  guarded-enabled :
      (b : Bool) (r n : ResolvedEntitlement)
      → n.enabled ≡ false
      → ((if b then r else n).enabled ≡ true) ↔ ((b ≡ true) × (r.enabled ≡ true))
  guarded-enabled true r n h = ground arith
  guarded-enabled false r n h = ground arith

  unfoldable pub plan_answer : ResolvedEntitlement
  plan_answer =
      resolve_plan f at (lookup org t.subscriptions) (plan_of (lookup org t.subscriptions) t)

  plan_at :
      (s : Subscription) (p : Plan)
      → lookup org t.subscriptions ≡ some s
      → lookup s.plan_id t.plans ≡ some p
      → plan_answer ≡ resolve_plan f at (some s) (some p)
  unfolding plan_answer
  plan_at s p e g = rw (e, g)

  no_subscription : lookup org t.subscriptions ≡ none → plan_answer.enabled ≡ false
  unfolding plan_answer
  no_subscription e = rw e

  no_plan :
      (s : Subscription)
      → lookup org t.subscriptions ≡ some s
      → lookup s.plan_id t.plans ≡ none
      → plan_answer.enabled ≡ false
  unfolding plan_answer
  no_plan s e g = rw (e, g)

  plan-enabled :
      (s : Subscription) (p : Plan)
      → ((resolve_plan f at (some s) (some p)).enabled ≡ true)
        ↔ ((plan_applies s p at ≡ true) × Any (λ g. g.feature ≡ f) p.grants)
  plan-enabled s p =
      let test =
        guarded-enabled (plan_applies s p at)
          (resolve_grant f (find (λ g. g.feature == f) p.grants)) (not_entitled f) refl in
      let grant = find-grant f p.grants in
      (λ h. let (b, g) = test.0 h in (b, grant.0 g), λ h. test.1 (h.0, grant.1 h.1))

  applies_iff :
      (s : Subscription) (p : Plan)
      → s.plan_id ≡ p.id
      → (plan_applies s p at ≡ true) ↔ ((p.active ≡ true) × (subscription_is_effective s at ≡ true))
  applies_iff s p h = ground (arith, nat_beq_iff s.plan_id p.id)

  pub plan_iff : IsTables t → (plan_answer.enabled ≡ true) ↔ Subscribed
  plan_iff k = (forward, backward)
    where
      own : (s : Subscription) (p : Plan) → lookup s.plan_id t.plans ≡ some p → s.plan_id ≡ p.id
      own s p e = OwnKeys-lookup (λ (p : Plan). p.id) t.plans s.plan_id p k.plans e

      forward : plan_answer.enabled ≡ true → Subscribed
      forward h = elim (Option-cases (lookup org t.subscriptions)) [
        | inl e ↦ absurd (ground (arith, no_subscription e))
        | inr (s, e) ↦ elim (Option-cases (lookup s.plan_id t.plans)) [
          | inl g ↦ absurd (ground (arith, no_plan s e g))
          | inr (p, g) ↦
              let (applies, granted) =
                (plan-enabled s p).0 (sym (ap (λ r. r.enabled) (plan_at s p e g)) ∙ h) in
              let (active, effective) = (applies_iff s p (own s p g)).0 applies in
              (s, p, e, g, active, effective, granted)
        ]
      ]

      backward : Subscribed → plan_answer.enabled ≡ true
      backward (s, p, e, g, active, effective, granted) =
          ap (λ r. r.enabled) (plan_at s p e g)
          ∙ (plan-enabled s p).1 ((applies_iff s p (own s p g)).1 (active, effective), granted)
