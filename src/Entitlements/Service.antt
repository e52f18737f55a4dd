-- ===== src/Entitlements/Service.antt =====
-- `EntitlementService` of backend/src/entitlements/application/service.py. Identifiers from
-- `new_uuid7` are arguments; the port on organizations and the audit sink are parameters. The two
-- methods that list the catalogue for administrators are left out.
use onwlms.Prelude.{
  Bool, List, Option, String, [], contains, nat_eq, none, not, pair_eq, some, string_eq, true, ◌&&◌,
  ◌++◌, ◌∷◌,
}
use onwlms.Core.{
  PlatformActorContext, Result, Uuid, authorization, entitlement_not_found, err,
  invalid_entitlement, ok, or_raise,
}
use onwlms.Core.Exec.{Exec, gets, lift, modify, pure, require, write, ◌>>=◌, ◌>>◌}
use onwlms.Core.Time.{DateTime}
use onwlms.Entitlements.Lifecycle.{transition}
use onwlms.Entitlements.Models.{
  EntitlementOverride, Feature, FeatureCode, Plan, PlanGrant, Subscription, SubscriptionStatus,
  UsageLimit, cancel, check_feature, check_override, check_plan, check_subscription, feature_eq,
  is_base, reactivate, subscription_eq, suspend,
}
use onwlms.Entitlements.Tables.{
  Tables, add_feature, add_plan, assign_row, current_row, get_plan, put_override,
  update_subscription,
}

-- The arguments of `record_entitlement_event`.
pub record EntitlementEvent : Type 0 where
  pub action : String
  pub organization_id : Option Uuid
  pub actor_subject_id : Uuid
  pub target_id : Uuid
  pub correlation_id : String
  pub outcome : String

pub record EntitlementPorts : Type 0 where
  pub is_active : Uuid → Bool
  pub record_entitlement : EntitlementEvent → Result (Unit {0})
  pub is_alnum : String → Bool

pub record Catalogue : Type 0 where
  pub tables : Tables
  pub events : List EntitlementEvent

abbrev stored_tables : Catalogue → Result Tables → Result Catalogue
stored_tables c (ok t) = ok (record c { tables = t })
stored_tables c (err e) = err e

abbrev pub commit_tables : (Tables → Result Tables) → Exec Catalogue (Unit {0})
commit_tables f = write (λ c. stored_tables c (f c.tables))

abbrev pub manage_entitlements_permission : String
manage_entitlements_permission = "entitlements.platform.manage"

-- `_require_platform_permission`
abbrev pub require_platform_permission : PlatformActorContext → Exec Catalogue (Unit {0})
require_platform_permission actor =
    require (contains manage_entitlements_permission actor.permissions) authorization

abbrev pub event_of : PlatformActorContext → String → Uuid → Option Uuid → String → EntitlementEvent
event_of actor action target_id organization_id outcome = record {
  action = action;
  organization_id = organization_id;
  actor_subject_id = actor.subject_id;
  target_id = target_id;
  correlation_id = actor.correlation_id;
  outcome = outcome;
}

module _ (ports : EntitlementPorts) (actor : PlatformActorContext) where
  -- `_audit_change`: the sink keeps the event, or raises and keeps nothing.
  abbrev pub audit_change : String → Uuid → Option Uuid → String → Exec Catalogue (Unit {0})
  audit_change action target_id organization_id outcome =
      let event = event_of actor action target_id organization_id outcome in
      do
        lift (ports.record_entitlement event)
        modify λ c. record c { events = c.events ++ event ∷ [] }

  -- `_require_active_organization`
  abbrev pub require_active_organization : Uuid → Exec Catalogue (Unit {0})
  require_active_organization organization_id =
      require (ports.is_active organization_id) invalid_entitlement

  -- The end of each writing method: the intent, the write and the success, in this order.
  unfoldable pub record_change :
      {A : Type 0}
      → String
      → String
      → Uuid
      → Option Uuid
      → (Tables → Result Tables)
      → A
      → Exec Catalogue A
  record_change requested completed target_id organization_id store answer = do
    audit_change requested target_id organization_id "intent_recorded"
    commit_tables store
    audit_change completed target_id organization_id "succeeded"
    pure answer

  unfoldable pub create_feature : Uuid → FeatureCode → String → Exec Catalogue Feature
  unfolding check_feature
  create_feature new_id code display_name = do
    require_platform_permission actor
    feature ← lift (
        check_feature (record {
          id = new_id;
          code = code;
          display_name = display_name;
          base_included = is_base code;
        }))
    record_change "feature.creation_requested" "feature.created" feature.id none
        (add_feature feature) feature

  unfoldable pub create_plan : Uuid → String → String → List PlanGrant → Exec Catalogue Plan
  unfolding check_plan
  create_plan new_id code display_name grants = do
    require_platform_permission actor
    plan ← lift (
        check_plan ports.is_alnum (record {
          id = new_id;
          code = code;
          display_name = display_name;
          grants = grants;
          active = true;
        }))
    record_change "plan.creation_requested" "plan.created" plan.id none (add_plan plan) plan

  -- `assign_subscription`
  unfoldable pub assign_subscription :
      Uuid
      → Uuid
      → Uuid
      → SubscriptionStatus
      → DateTime
      → Option DateTime
      → Exec Catalogue Subscription
  unfolding check_subscription get_plan
  assign_subscription new_id organization_id plan_id status starts_at ends_at = do
    require_platform_permission actor
    require (contains status (SubscriptionStatus.active ∷ SubscriptionStatus.trialing ∷ []))
        invalid_entitlement
    require_active_organization organization_id
    found ← gets (λ c. get_plan plan_id c.tables)
    plan ← lift (or_raise found entitlement_not_found)
    require plan.active invalid_entitlement
    subscription ← lift (
        check_subscription (record {
          id = new_id;
          organization_id = organization_id;
          plan_id = plan_id;
          status = status;
          starts_at = starts_at;
          ends_at = ends_at;
        }))
    record_change "subscription.assignment_requested" "subscription.assigned" subscription.id
        (some organization_id) (assign_row subscription) subscription

  -- `_transition_subscription`
  unfoldable pub transition_subscription :
      Uuid → (Subscription → Result Subscription) → String → String → Exec Catalogue Subscription
  unfolding current_row
  transition_subscription organization_id transition requested_action completed_action = do
    require_platform_permission actor
    found ← gets (λ c. current_row organization_id c.tables)
    current ← lift (or_raise found entitlement_not_found)
    transitioned ← lift (transition current)
    record_change requested_action completed_action current.id (some organization_id)
        (update_subscription transitioned current.status) transitioned

  unfoldable pub suspend_subscription : Uuid → Exec Catalogue Subscription
  unfolding transition_subscription
  suspend_subscription organization_id =
      transition_subscription organization_id suspend "subscription.suspension_requested"
        "subscription.suspended"

  unfoldable pub reactivate_subscription : Uuid → Exec Catalogue Subscription
  unfolding transition_subscription
  reactivate_subscription organization_id =
      transition_subscription organization_id reactivate "subscription.reactivation_requested"
        "subscription.reactivated"

  unfoldable pub cancel_subscription : Uuid → Exec Catalogue Subscription
  unfolding transition_subscription
  cancel_subscription organization_id =
      transition_subscription organization_id cancel "subscription.cancellation_requested"
        "subscription.canceled"

  unfoldable pub set_override :
      Uuid
      → Uuid
      → FeatureCode
      → Bool
      → Option UsageLimit
      → Option DateTime
      → Exec Catalogue EntitlementOverride
  unfolding check_override
  set_override new_id organization_id feature enabled usage_limit expires_at = do
    require_platform_permission actor
    require (not (is_base feature && not enabled)) invalid_entitlement
    require_active_organization organization_id
    override ← lift (
        check_override (record {
          id = new_id;
          organization_id = organization_id;
          feature = feature;
          enabled = enabled;
          usage_limit = usage_limit;
          expires_at = expires_at;
        }))
    record_change "entitlement.override_set_requested" "entitlement.override_set" override.id
        (some organization_id) (put_override override) override
