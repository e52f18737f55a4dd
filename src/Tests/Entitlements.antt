-- ===== src/Tests/Entitlements.antt =====
-- A small catalogue, for the theorems on backend/src/entitlements.
use onwlms.Prelude.{[], false, nat_eq, none, pair_eq, refl, some, string_eq, true, ℕ, ◌↔◌, ◌∷◌, ◌≡◌}
use onwlms.Prelude.Dict.{insert, lookup}
use onwlms.Prelude.Int.{pos}
use onwlms.Core.{PlatformActorContext, entitlement_conflict, err, ok}
use onwlms.Core.Exec.{◌>>=◌}
use onwlms.Core.Time.{DateTime, TzInfo}
use onwlms.Entitlements.Entitled.{Entitled, resolve_entitled_iff}
use onwlms.Entitlements.Governed.{Governed}
use onwlms.Entitlements.Handled.{handle, handle-Governed}
use onwlms.Entitlements.Intents.{EntitlementCall, Intended}
use onwlms.Entitlements.Lifecycle.{Changes, Transition, transition, update-Changes}
use onwlms.Entitlements.Models.{
  Feature, FeatureCode, Plan, ResolvedEntitlement, Subscription, SubscriptionStatus, cancel,
  check_subscription, feature_eq, reactivate, subscription_eq, suspend,
}
use onwlms.Entitlements.Resolution.{IsTables}
use onwlms.Entitlements.Resolve.{not_entitled, resolve_for_organization, resolve_snapshot, resolved}
use onwlms.Entitlements.Service.{
  Catalogue, EntitlementPorts, cancel_subscription, manage_entitlements_permission,
  reactivate_subscription, record_change, suspend_subscription, transition_subscription,
}
use onwlms.Entitlements.Tables.{Tables, assign_row, current_row, get_snapshot, update_subscription}

abbrev at : ℕ → DateTime
at instant = record { instant = instant; tzinfo = TzInfo.offset (pos 0) }

abbrev basic : Plan
basic = record {
  id = 3;
  code = "basic";
  display_name = "Basic";
  grants = record { feature = FeatureCode.library; usage_limit = none } ∷ [];
  active = true;
}

abbrev subscribed : SubscriptionStatus → Subscription
subscribed status = record {
  id = 5;
  organization_id = 1;
  plan_id = 3;
  status = status;
  starts_at = at 100;
  ends_at = none;
}

abbrev library : Feature
library = record {
  id = 2;
  code = FeatureCode.library;
  display_name = "Library";
  base_included = false;
}

abbrev tables : SubscriptionStatus → Tables
tables status = record {
  features = (FeatureCode.library, library) ∷ [];
  plans = (3, basic) ∷ [];
  subscriptions = (1, subscribed status) ∷ [];
  overrides = [];
}

tables-IsTables : (status : SubscriptionStatus) → IsTables (tables status)
unfolding lookup
tables-IsTables status = record {
  features = (refl, refl, tt);
  plans = (refl, refl, tt);
  subscriptions = (refl, refl, tt);
  overrides = tt;
}

abbrev takes_all : EntitlementPorts
takes_all = record {
  is_active = λ id. true;
  record_entitlement = λ event. ok tt;
  is_alnum = λ s. true;
}

abbrev operator : PlatformActorContext
operator = record {
  subject_id = 8;
  correlation_id = "c";
  permissions = manage_entitlements_permission ∷ [];
}

abbrev catalogue : Catalogue
catalogue = record { tables = tables SubscriptionStatus.active; events = [] }

granted :
    resolve_for_organization 1 FeatureCode.library (at 200) (tables SubscriptionStatus.active)
    ≡ ok (resolved FeatureCode.library true "subscription" none)
unfolding resolve_for_organization resolve_snapshot get_snapshot lookup
granted = refl

suspended_plan :
    resolve_for_organization 1 FeatureCode.library (at 200) (tables SubscriptionStatus.suspended)
    ≡ ok (not_entitled FeatureCode.library)
unfolding resolve_for_organization resolve_snapshot get_snapshot lookup
suspended_plan = refl

resolve_entitled_iff_example :
    ((r : ResolvedEntitlement) × (resolve_for_organization 1 FeatureCode.library
          (at 200)
          (tables SubscriptionStatus.active)
        ≡ ok r)
      × (r.enabled ≡ true))
    ↔ Entitled (tables SubscriptionStatus.active) 1 FeatureCode.library (at 200)
resolve_entitled_iff_example =
    resolve_entitled_iff (tables SubscriptionStatus.active) 1 FeatureCode.library (at 200)
      (tables-IsTables SubscriptionStatus.active) refl

suspends :
    transition Transition.suspends (subscribed SubscriptionStatus.active)
    ≡ ok (subscribed SubscriptionStatus.suspended)
unfolding suspend
suspends = refl

writes_row :
    update_subscription
      (subscribed SubscriptionStatus.suspended)
      SubscriptionStatus.active
      (tables SubscriptionStatus.active)
    ≡ ok (tables SubscriptionStatus.suspended)
unfolding update_subscription assign_row lookup insert
writes_row = refl

-- A row that was canceled in the meantime stays canceled.
stale_row :
    update_subscription
      (subscribed SubscriptionStatus.suspended)
      SubscriptionStatus.active
      (tables SubscriptionStatus.canceled)
    ≡ err entitlement_conflict
unfolding update_subscription assign_row lookup insert
stale_row = refl

update-Changes_example :
    (row : Subscription) × (lookup 1 (tables SubscriptionStatus.active).subscriptions ≡ some row)
    × (row.id ≡ 5)
    × (row.status ≡ SubscriptionStatus.active)
    × Changes row.status SubscriptionStatus.suspended
    × (tables SubscriptionStatus.suspended ≡ record (tables SubscriptionStatus.active) {
      subscriptions =
          insert 1
            (subscribed SubscriptionStatus.suspended)
            (tables SubscriptionStatus.active).subscriptions;
    })
update-Changes_example =
    update-Changes Transition.suspends (subscribed SubscriptionStatus.active)
      (subscribed SubscriptionStatus.suspended) (tables SubscriptionStatus.active)
      (tables SubscriptionStatus.suspended) suspends writes_row

-- After a cancellation no transition goes through.
canceled_stays :
    (handle takes_all operator
      (EntitlementCall.reactivation 1)
      (handle takes_all operator (EntitlementCall.cancellation 1) catalogue)).tables
    ≡ tables SubscriptionStatus.canceled
unfolding handle suspend_subscription reactivate_subscription cancel_subscription ◌>>=◌
    transition_subscription suspend reactivate cancel check_subscription current_row record_change
    update_subscription assign_row lookup insert
canceled_stays = refl

handle-Governed_example :
    Governed takes_all operator
      (Intended takes_all (EntitlementCall.cancellation 1))
      catalogue
      (handle takes_all operator (EntitlementCall.cancellation 1) catalogue)
handle-Governed_example =
    handle-Governed takes_all operator (EntitlementCall.cancellation 1) catalogue
