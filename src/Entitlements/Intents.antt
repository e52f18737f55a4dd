-- ===== src/Entitlements/Intents.antt =====
-- What each writing method of `EntitlementService` of
-- backend/src/entitlements/application/service.py is to announce and to store.
use onwlms.Prelude.{
  Bool, List, Option, String, false, nat_eq, none, pair_eq, some, string_eq, true, ◌≡◌, ◌⊎◌,
}
use onwlms.Prelude.Dict.{insert, lookup}
use onwlms.Core.{Uuid}
use onwlms.Core.Time.{DateTime}
use onwlms.Entitlements.Lifecycle.{Changes}
use onwlms.Entitlements.Models.{
  FeatureCode, Plan, PlanGrant, Subscription, SubscriptionStatus, UsageLimit, feature_eq, is_base,
  subscription_eq,
}
use onwlms.Entitlements.Service.{EntitlementEvent, EntitlementPorts}
use onwlms.Entitlements.Tables.{Tables}

-- A call of a method of the service that may write, with the identifier that it takes from
-- `new_uuid7`.
pub data EntitlementCall : Type 0 where
  feature : Uuid → FeatureCode → String → EntitlementCall
  plan : Uuid → String → String → List PlanGrant → EntitlementCall
  assign : Uuid → Uuid → Uuid → SubscriptionStatus → DateTime → Option DateTime → EntitlementCall
  suspension reactivation cancellation : Uuid → EntitlementCall
  override :
      Uuid → Uuid → FeatureCode → Bool → Option UsageLimit → Option DateTime → EntitlementCall

abbrev pub Announces : String → Uuid → Option Uuid → EntitlementEvent → Type 0
Announces action target_id organization_id event =
    (event.action ≡ action)
    × (event.target_id ≡ target_id)
    × (event.organization_id ≡ organization_id)

-- The current subscription of the organization is announced and comes to the status.
abbrev pub BringsTo :
    String → SubscriptionStatus → Uuid → Tables → Tables → EntitlementEvent → Type 0
BringsTo action status organization_id t t' event =
    (row : Subscription) × (lookup organization_id t.subscriptions ≡ some row)
    × Announces action row.id (some organization_id) event
    × Changes row.status status
    × (t' ≡ record t {
      subscriptions = insert row.organization_id (record row { status = status }) t.subscriptions;
    })

-- The tables before and after the write of a call, and the event that is to be logged before it. A
-- plan is assigned, in an active or trialing status, only if it is stored and active, and an
-- assignment and an override are for an active organization only; a base feature is not disabled.
abbrev pub Intended :
    EntitlementPorts → EntitlementCall → Tables → Tables → EntitlementEvent → Type 0
Intended ports (EntitlementCall.feature id code name) t t' event =
    Announces "feature.creation_requested" id none event
    × (t' ≡ record t {
      features =
          insert code
            (record { id = id; code = code; display_name = name; base_included = is_base code })
            t.features;
    })
Intended ports (EntitlementCall.plan id code name grants) t t' event =
    Announces "plan.creation_requested" id none event
    × (t' ≡ record t {
      plans =
          insert id
            (record { id = id; code = code; display_name = name; grants = grants; active = true })
            t.plans;
    })
Intended ports (EntitlementCall.assign id org plan_id status starts_at ends_at) t t' event =
    Announces "subscription.assignment_requested" id (some org) event
    × ((status ≡ SubscriptionStatus.active) ⊎ (status ≡ SubscriptionStatus.trialing))
    × (ports.is_active org ≡ true)
    × ((p : Plan) × (lookup plan_id t.plans ≡ some p) × (p.active ≡ true))
    × (t' ≡ record t {
      subscriptions =
          insert org
            (record {
              id = id;
              organization_id = org;
              plan_id = plan_id;
              status = status;
              starts_at = starts_at;
              ends_at = ends_at;
            })
            t.subscriptions;
    })
Intended ports (EntitlementCall.suspension org) t t' event =
    BringsTo "subscription.suspension_requested" SubscriptionStatus.suspended org t t' event
Intended ports (EntitlementCall.reactivation org) t t' event =
    BringsTo "subscription.reactivation_requested" SubscriptionStatus.active org t t' event
Intended ports (EntitlementCall.cancellation org) t t' event =
    BringsTo "subscription.cancellation_requested" SubscriptionStatus.canceled org t t' event
Intended ports (EntitlementCall.override id org f enabled limit expires_at) t t' event =
    Announces "entitlement.override_set_requested" id (some org) event
    × ((is_base f ≡ false) ⊎ (enabled ≡ true))
    × (ports.is_active org ≡ true)
    × (t' ≡ record t {
      overrides =
          insert (org, f)
            (record {
              id = id;
              organization_id = org;
              feature = f;
              enabled = enabled;
              usage_limit = limit;
              expires_at = expires_at;
            })
            t.overrides;
    })
