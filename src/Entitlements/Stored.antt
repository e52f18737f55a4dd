-- ===== src/Entitlements/Stored.antt =====
-- What is known once a constructor or a write of backend/src/entitlements has gone through.
use onwlms.Prelude.{
  Bool, Option, String, [], arith, contains, false, nat_eq, not, pair_eq, some, string_eq, true,
  ◌&&◌, ◌∷◌, ◌≡◌, ◌⊎◌,
}
use onwlms.Prelude.Dict.{insert}
use onwlms.Core.{AppError, ok, or_raise}
use onwlms.Entitlements.Models.{
  EntitlementOverride, Feature, Plan, Subscription, SubscriptionStatus, check_feature,
  check_override, check_plan, check_subscription, feature_eq, subscription_eq,
}
use onwlms.Entitlements.Tables.{Tables, add_feature, add_plan, put_override}

-- The constructors answer with what they were given.
pub check_feature-same : (f g : Feature) → check_feature f ≡ ok g → g ≡ f
unfolding check_feature
check_feature-same f g h = ground (arith, h)

pub check_plan-same : (a : String → Bool) (p q : Plan) → check_plan a p ≡ ok q → q ≡ p
unfolding check_plan
check_plan-same a p q h = ground (arith, h)

pub check_subscription-same : (s r : Subscription) → check_subscription s ≡ ok r → r ≡ s
unfolding check_subscription
check_subscription-same s r h = ground (arith, h)

pub check_override-same : (o p : EntitlementOverride) → check_override o ≡ ok p → p ≡ o
unfolding check_override
check_override-same o p h = ground (arith, h)

pub add_feature-eq-ok :
    (f : Feature) (t t' : Tables)
    → add_feature f t ≡ ok t'
    → t' ≡ record t { features = insert f.code f t.features }
unfolding add_feature
add_feature-eq-ok f t t' h = ground (arith, h)

pub add_plan-eq-ok :
    (p : Plan) (t t' : Tables)
    → add_plan p t ≡ ok t'
    → t' ≡ record t { plans = insert p.id p t.plans }
unfolding add_plan
add_plan-eq-ok p t t' h = ground (arith, h)

pub put_override-eq-ok :
    (o : EntitlementOverride) (t t' : Tables)
    → put_override o t ≡ ok t'
    → t' ≡ record t { overrides = insert (o.organization_id, o.feature) o t.overrides }
unfolding put_override
put_override-eq-ok o t t' h = ground (arith, h)

pub known-eq-ok :
    {A : Type 0} (o : Option A) (e : AppError) (a : A) → or_raise o e ≡ ok a → o ≡ some a
known-eq-ok o e a h = ground (arith, h)

pub begins :
    (s : SubscriptionStatus)
    → contains s (SubscriptionStatus.active ∷ SubscriptionStatus.trialing ∷ []) ≡ true
    → (s ≡ SubscriptionStatus.active) ⊎ (s ≡ SubscriptionStatus.trialing)
begins s h = ground (arith, h)

pub kept_enabled :
    (base enabled : Bool) → not (base && not enabled) ≡ true → (base ≡ false) ⊎ (enabled ≡ true)
kept_enabled base enabled h = ground (arith, h)
