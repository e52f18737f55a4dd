-- ===== src/Entitlements/Handled.antt =====
-- Sequences of calls of `EntitlementService` of
-- backend/src/entitlements/application/service.py.
use onwlms.Prelude.{nat_eq, pair_eq, string_eq}
use onwlms.Core.{PlatformActorContext}
use onwlms.Entitlements.Governed.{Governed}
use onwlms.Entitlements.Intents.{EntitlementCall, Intended}
use onwlms.Entitlements.Lifecycle.{Transition}
use onwlms.Entitlements.Methods.{
  assign_subscription-Governed, create_feature-Governed, create_plan-Governed,
  set_override-Governed, transition-Governed,
}
use onwlms.Entitlements.Service.{
  Catalogue, EntitlementPorts, assign_subscription, cancel_subscription, create_feature,
  create_plan, reactivate_subscription, set_override, suspend_subscription,
}

-- The catalogue after a call, whether the method returns or raises.
unfoldable pub handle :
    EntitlementPorts → PlatformActorContext → EntitlementCall → Catalogue → Catalogue
handle ports actor (EntitlementCall.feature id code name) c =
    (create_feature ports actor id code name c).1
handle ports actor (EntitlementCall.plan id code name grants) c =
    (create_plan ports actor id code name grants c).1
handle ports actor (EntitlementCall.assign id org plan_id status starts_at ends_at) c =
    (assign_subscription ports actor id org plan_id status starts_at ends_at c).1
handle ports actor (EntitlementCall.suspension org) c = (suspend_subscription ports actor org c).1
handle ports actor (EntitlementCall.reactivation org) c =
    (reactivate_subscription ports actor org c).1
handle ports actor (EntitlementCall.cancellation org) c = (cancel_subscription ports actor org c).1
handle ports actor (EntitlementCall.override id org f enabled limit expires_at) c =
    (set_override ports actor id org f enabled limit expires_at c).1

-- However a call ends, also when the audit sink or the repository raises: the tables are as before,
-- or the actor has platform authority, the tables differ by exactly the write that belongs to the
-- call, and the first event that the call has logged is its intent, with the action, the target and
-- the organization of that call under the actor's name and correlation. A suspension, a
-- reactivation and a cancellation bring the current subscription of the organization to suspended,
-- active and canceled, along the lifecycle; only an active plan that is stored is assigned, and a base
-- feature is not disabled.
pub handle-Governed :
    (ports : EntitlementPorts) (actor : PlatformActorContext) (call : EntitlementCall)
    (c : Catalogue)
    → Governed ports actor (Intended ports call) c (handle ports actor call c)
unfolding handle suspend_subscription reactivate_subscription cancel_subscription
handle-Governed ports actor (EntitlementCall.feature id code name) c =
    (create_feature-Governed ports actor id code name).at c
handle-Governed ports actor (EntitlementCall.plan id code name grants) c =
    (create_plan-Governed ports actor id code name grants).at c
handle-Governed ports actor (EntitlementCall.assign id org plan_id status starts_at ends_at) c =
    (assign_subscription-Governed ports actor id org plan_id status starts_at ends_at).at c
handle-Governed ports actor (EntitlementCall.suspension org) c =
    (transition-Governed ports actor Transition.suspends org _ _).at c
handle-Governed ports actor (EntitlementCall.reactivation org) c =
    (transition-Governed ports actor Transition.reactivates org _ _).at c
handle-Governed ports actor (EntitlementCall.cancellation org) c =
    (transition-Governed ports actor Transition.cancels org _ _).at c
handle-Governed ports actor (EntitlementCall.override id org f enabled limit expires_at) c =
    (set_override-Governed ports actor id org f enabled limit expires_at).at c
