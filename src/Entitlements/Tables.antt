-- ===== src/Entitlements/Tables.antt =====
-- `SQLAlchemyEntitlementRepository` of backend/src/entitlements/infrastructure/repository.py, over
-- the tables of backend/src/entitlements/infrastructure/models.py as dictionaries. The keys are the
-- unique constraints, and the foreign keys between these tables are the tests that raise. A locked
-- row makes each method one step.
use onwlms.Prelude.{Option, [], all, any, filter, nat_eq, none, not, pair_eq, some, string_eq, ◌==◌}
use onwlms.Prelude.Dict.{Dict, has_key, insert, lookup, values}
use onwlms.Core.{Result, Uuid, entitlement_conflict, entitlement_not_found, err, ok, raise_if, ◌>>◌}
use onwlms.Entitlements.Models.{
  EntitlementOverride, EntitlementSnapshot, Feature, FeatureCode, Plan, Subscription,
  SubscriptionStatus, feature_eq, subscription_eq,
}

pub record Tables : Type 0 where
  pub features : Dict FeatureCode Feature
  pub plans : Dict Uuid Plan
  pub subscriptions : Dict Uuid Subscription
  pub overrides : Dict (Uuid × FeatureCode) EntitlementOverride

abbrev pub no_rows : Tables
no_rows = record { features = []; plans = []; subscriptions = []; overrides = [] }

unfoldable pub add_feature : Feature → Tables → Result Tables
add_feature feature t = do
  raise_if (has_key feature.code t.features) entitlement_conflict
  ok (record t { features = insert feature.code feature t.features })

unfoldable pub add_plan : Plan → Tables → Result Tables
add_plan plan t = do
  raise_if (any (λ p. p.code == plan.code) (values t.plans)) entitlement_conflict
  raise_if (has_key plan.id t.plans) entitlement_conflict
  raise_if (not (all (λ g. has_key g.feature t.features) plan.grants)) entitlement_conflict
  ok (record t { plans = insert plan.id plan t.plans })

unfoldable pub get_plan : Uuid → Tables → Option Plan
get_plan plan_id t = lookup plan_id t.plans

unfoldable pub assign_row : Subscription → Tables → Result Tables
assign_row subscription t = do
  raise_if (not (has_key subscription.plan_id t.plans)) entitlement_conflict
  ok (record t { subscriptions = insert subscription.organization_id subscription t.subscriptions })

unfoldable pub current_row : Uuid → Tables → Option Subscription
current_row organization_id t = lookup organization_id t.subscriptions

-- The row that `update_subscription` locks, with the tests on it.
abbrev pub locked_row : Subscription → SubscriptionStatus → Option Subscription → Result (Unit {0})
locked_row subscription expected none = err entitlement_not_found
locked_row subscription expected (some row) = do
  raise_if (not (row.id == subscription.id)) entitlement_not_found
  raise_if (not (row.status == expected)) entitlement_conflict

unfoldable pub update_subscription : Subscription → SubscriptionStatus → Tables → Result Tables
update_subscription subscription expected t = do
  locked_row subscription expected (lookup subscription.organization_id t.subscriptions)
  assign_row subscription t

unfoldable pub put_override : EntitlementOverride → Tables → Result Tables
put_override override t = do
  raise_if (not (has_key override.feature t.features)) entitlement_conflict
  ok (record t {
    overrides = insert (override.organization_id, override.feature) override t.overrides;
  })

abbrev pub plan_of : Option Subscription → Tables → Option Plan
plan_of none t = none
plan_of (some s) t = lookup s.plan_id t.plans

unfoldable pub get_snapshot : Uuid → Tables → EntitlementSnapshot
get_snapshot organization_id t =
    let subscription = lookup organization_id t.subscriptions in
    record {
      plan = plan_of subscription t;
      subscription = subscription;
      overrides = filter (λ o. o.organization_id == organization_id) (values t.overrides);
    }
