-- ===== src/Entitlements/Methods.antt =====
-- The writing methods of `EntitlementService` of backend/src/entitlements/application/service.py
-- announce and store what they are to.
use onwlms.Prelude.{
  Bool, List, Option, String, ap, nat_eq, none, pair_eq, refl, some, string_eq, ◌∙◌, ◌≡◌,
}
use onwlms.Prelude.Dict.{insert, lookup}
use onwlms.Core.{PlatformActorContext, Uuid, entitlement_not_found, ok, or_raise}
use onwlms.Core.Exec.{◌>>=◌}
use onwlms.Core.Exec.Relates.{Relates, Relates-lift-bind, Relates-require-bind}
use onwlms.Core.Time.{DateTime}
use onwlms.Entitlements.Governed.{Governed, Governed-same, record_change-Governed, record_change_at}
use onwlms.Entitlements.Intents.{BringsTo, EntitlementCall, Intended}
use onwlms.Entitlements.Lifecycle.{
  Transition, assign-eq-ok, transition, transition-eq-ok, update-eq-ok, target,
}
use onwlms.Entitlements.Models.{
  FeatureCode, PlanGrant, Subscription, SubscriptionStatus, UsageLimit, feature_eq, is_base,
  subscription_eq,
}
use onwlms.Entitlements.Service.{
  EntitlementPorts, assign_subscription, create_feature, create_plan, event_of, set_override,
  transition_subscription,
}
use onwlms.Entitlements.Stored.{
  add_feature-eq-ok, add_plan-eq-ok, begins, check_feature-same, check_override-same,
  check_plan-same, check_subscription-same, kept_enabled, known-eq-ok, put_override-eq-ok,
}
use onwlms.Entitlements.Tables.{
  Tables, add_feature, add_plan, assign_row, current_row, get_plan, put_override,
  update_subscription,
}

module _ (ports : EntitlementPorts) (actor : PlatformActorContext) where
  pub create_feature-Governed :
      (id : Uuid) (code : FeatureCode) (name : String)
      → Relates
          (Governed ports actor (Intended ports (EntitlementCall.feature id code name)))
          (create_feature ports actor id code name)
  unfolding create_feature
  create_feature-Governed id code name =
      let Intent = Intended ports (EntitlementCall.feature id code name) in
      Relates-require-bind (Governed-same ports actor Intent) _ _ _ λ allowed.
        Relates-lift-bind (Governed-same ports actor Intent) _ _ λ f e.
          let same = check_feature-same _ f e in
          record_change-Governed ports actor Intent _ _ f.id none (add_feature f) f allowed
            λ t t' h. (
              (refl, ap (λ f. f.id) same, refl),
              add_feature-eq-ok f t t' h
                  ∙ ap (λ f. record t { features = insert f.code f t.features }) same,
            )

  pub create_plan-Governed :
      (id : Uuid) (code name : String) (grants : List PlanGrant)
      → Relates
          (Governed ports actor (Intended ports (EntitlementCall.plan id code name grants)))
          (create_plan ports actor id code name grants)
  unfolding create_plan
  create_plan-Governed id code name grants =
      let Intent = Intended ports (EntitlementCall.plan id code name grants) in
      Relates-require-bind (Governed-same ports actor Intent) _ _ _ λ allowed.
        Relates-lift-bind (Governed-same ports actor Intent) _ _ λ p e.
          let same = check_plan-same ports.is_alnum _ p e in
          record_change-Governed ports actor Intent _ _ p.id none (add_plan p) p allowed λ t t' h. (
            (refl, ap (λ p. p.id) same, refl),
            add_plan-eq-ok p t t' h ∙ ap (λ p. record t { plans = insert p.id p t.plans }) same,
          )

  pub assign_subscription-Governed :
      (id org plan_id : Uuid) (status : SubscriptionStatus) (starts_at : DateTime)
      (ends_at : Option DateTime)
      → Relates
          (Governed ports actor
            (Intended ports (EntitlementCall.assign id org plan_id status starts_at ends_at)))
          (assign_subscription ports actor id org plan_id status starts_at ends_at)
  unfolding assign_subscription get_plan ◌>>=◌
  assign_subscription-Governed id org plan_id status starts_at ends_at =
      let Intent =
        Intended ports (EntitlementCall.assign id org plan_id status starts_at ends_at) in
      let same_state = Governed-same ports actor Intent in
      Relates-require-bind same_state _ _ _ λ allowed.
        Relates-require-bind same_state _ _ _ λ initial.
          Relates-require-bind same_state _ _ _ λ present. record {
            at = λ c.
                (Relates-lift-bind {R = λ d d'. d ≡ c → Governed ports actor Intent d d'}
                    (λ d e. Governed-same ports actor Intent d)
                    (or_raise (lookup plan_id c.tables.plans) entitlement_not_found) _
                    (λ p known.
                      Relates-require-bind (λ d e. Governed-same ports actor Intent d) _ _ _
                        (λ offered.
                          Relates-lift-bind (λ d e. Governed-same ports actor Intent d) _ _
                            (λ s checked.
                              let same = check_subscription-same _ s checked in
                              record {
                                at = λ d e.
                                    record_change_at ports actor Intent _ _ s.id (some org)
                                      (assign_row s) s d allowed
                                      (λ t' h. (
                                        (refl, ap (λ s. s.id) same, refl),
                                        begins status initial,
                                        present,
                                        (
                                          p,
                                          ap (λ d. lookup plan_id d.tables.plans) e
                                              ∙ known-eq-ok _ _ p known,
                                          offered,
                                        ),
                                        assign-eq-ok s d.tables t' h
                                            ∙ ap
                                                (λ s. record d.tables {
                                                  subscriptions =
                                                      insert s.organization_id s
                                                        d.tables.subscriptions;
                                                })
                                                same,
                                      ));
                              })))).at
                  c refl;
          }

  pub set_override-Governed :
      (id org : Uuid) (f : FeatureCode) (enabled : Bool) (limit : Option UsageLimit)
      (expires_at : Option DateTime)
      → Relates
          (Governed ports actor
            (Intended ports (EntitlementCall.override id org f enabled limit expires_at)))
          (set_override ports actor id org f enabled limit expires_at)
  unfolding set_override
  set_override-Governed id org f enabled limit expires_at =
      let Intent = Intended ports (EntitlementCall.override id org f enabled limit expires_at) in
      let same_state = Governed-same ports actor Intent in
      Relates-require-bind same_state _ _ _ λ allowed.
        Relates-require-bind same_state _ _ _ λ initial.
          Relates-require-bind same_state _ _ _ λ present. Relates-lift-bind same_state _ _ λ o e.
            let same = check_override-same _ o e in
            record_change-Governed ports actor Intent _ _ o.id (some org) (put_override o) o allowed
              λ t t' h. (
                (refl, ap (λ o. o.id) same, refl),
                kept_enabled (is_base f) enabled initial,
                present,
                put_override-eq-ok o t t' h
                    ∙ ap
                        (λ o. record t {
                          overrides = insert (o.organization_id, o.feature) o t.overrides;
                        })
                        same,
              )

  moved-BringsTo :
      (m : Transition) (requested : String) (org : Uuid) (row moved : Subscription) (t t' : Tables)
      → lookup org t.subscriptions ≡ some row
      → transition m row ≡ ok moved
      → update_subscription moved row.status t ≡ ok t'
      → BringsTo requested
          (target m)
          org
          t
          t'
          (event_of actor requested row.id (some org) "intent_recorded")
  moved-BringsTo m requested org row moved t t' found changes stored =
      let (change, same) = transition-eq-ok m row moved changes in
      (
        row,
        found,
        (refl, refl, refl),
        change,
        assign-eq-ok moved t t' (update-eq-ok moved row.status t t' stored).1
            ∙ ap (λ s. record t { subscriptions = insert s.organization_id s t.subscriptions })
                same,
      )

  pub transition-Governed :
      (m : Transition) (org : Uuid) (requested completed : String)
      → Relates
          (Governed ports actor (BringsTo requested (target m) org))
          (transition_subscription ports actor org (transition m) requested completed)
  unfolding transition_subscription current_row ◌>>=◌
  transition-Governed m org requested completed =
      let Intent = BringsTo requested (target m) org in
      Relates-require-bind (Governed-same ports actor Intent) _ _ _ λ allowed. record {
        at = λ c.
            (Relates-lift-bind {R = λ d d'. d ≡ c → Governed ports actor Intent d d'}
                (λ d e. Governed-same ports actor Intent d)
                (or_raise (lookup org c.tables.subscriptions) entitlement_not_found) _
                (λ row known.
                  Relates-lift-bind (λ d e. Governed-same ports actor Intent d) (transition m row) _
                    (λ moved changes. record {
                      at = λ d e.
                          record_change_at ports actor Intent requested completed row.id (some org)
                            (update_subscription moved row.status) moved d allowed
                            (λ t' stored.
                              moved-BringsTo m requested org row moved d.tables t'
                                (ap (λ d. lookup org d.tables.subscriptions) e
                                  ∙ known-eq-ok _ _ row known)
                                changes stored);
                    }))).at
              c refl;
      }
