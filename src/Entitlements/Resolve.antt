-- ===== src/Entitlements/Resolve.antt =====
-- `resolve_for_organization` and `resolve` of
-- backend/src/entitlements/application/service.py.
use onwlms.Prelude.{
  Bool, Option, String, contains, false, find, if◌then◌else◌, nat_eq, none, not, pair_eq, some,
  string_eq, true, ◌&&◌, ◌==◌,
}
use onwlms.Core.{
  Result, TenantActorContext, Uuid, authorization, invalid_entitlement, ok, raise_if, ◌>>◌,
}
use onwlms.Core.Time.{DateTime, has_no_tzinfo}
use onwlms.Entitlements.Models.{
  EntitlementOverride, EntitlementSnapshot, FeatureCode, Plan, PlanGrant, ResolvedEntitlement,
  Subscription, UsageLimit, feature_eq, is_base, override_is_effective, subscription_eq,
  subscription_is_effective,
}
use onwlms.Entitlements.Tables.{Tables, get_snapshot}

abbrev pub read_entitlements_permission : String
read_entitlements_permission = "entitlements.read"

-- Whether the plan of the snapshot grants anything at the time.
abbrev pub plan_applies : Subscription → Plan → DateTime → Bool
plan_applies s p at = p.active && s.plan_id == p.id && subscription_is_effective s at

abbrev pub resolved : FeatureCode → Bool → String → Option UsageLimit → ResolvedEntitlement
resolved feature enabled source usage_limit = record {
  feature = feature;
  enabled = enabled;
  source = source;
  usage_limit = usage_limit;
}

abbrev pub not_entitled : FeatureCode → ResolvedEntitlement
not_entitled feature = resolved feature false "not_entitled" none

-- The grant of the plan, if there is one.
abbrev pub resolve_grant : FeatureCode → Option PlanGrant → ResolvedEntitlement
resolve_grant feature none = not_entitled feature
resolve_grant feature (some grant) = resolved feature true "subscription" grant.usage_limit

-- The part of `resolve_for_organization` on the subscription and its plan.
abbrev pub resolve_plan :
    FeatureCode → DateTime → Option Subscription → Option Plan → ResolvedEntitlement
resolve_plan feature at (some s) (some p) =
    if plan_applies s p at
    then resolve_grant feature (find (λ g. g.feature == feature) p.grants)
    else not_entitled feature
resolve_plan feature at _ _ = not_entitled feature

-- The first override that applies, or else the plan.
abbrev pub resolve_override :
    FeatureCode → DateTime → EntitlementSnapshot → Option EntitlementOverride → ResolvedEntitlement
resolve_override feature at snapshot (some o) =
    resolved feature o.enabled "platform_override" (if o.enabled then o.usage_limit else none)
resolve_override feature at snapshot none =
    resolve_plan feature at snapshot.subscription snapshot.plan

unfoldable pub resolve_snapshot : FeatureCode → DateTime → EntitlementSnapshot → ResolvedEntitlement
resolve_snapshot feature at snapshot =
    resolve_override feature at snapshot
      (find (λ o. o.feature == feature && override_is_effective o at) snapshot.overrides)

unfoldable pub resolve_for_organization :
    Uuid → FeatureCode → DateTime → Tables → Result ResolvedEntitlement
resolve_for_organization organization_id feature at t = do
  raise_if (has_no_tzinfo at) invalid_entitlement
  if is_base feature
      then ok (resolved feature true "base_product" none)
      else ok (resolve_snapshot feature at (get_snapshot organization_id t))

-- `resolve`, for the tenant of the actor
unfoldable pub resolve :
    TenantActorContext → FeatureCode → DateTime → Tables → Result ResolvedEntitlement
resolve actor feature at t = do
  raise_if (not (contains read_entitlements_permission actor.permissions)) authorization
  resolve_for_organization actor.organization_id feature at t
