-- ===== src/Entitlements/Governed.antt =====
-- What a call of `EntitlementService` of backend/src/entitlements/application/service.py does to
-- the tables and to the audit log.
use mathlib.Core.List.{append_assoc}
use mathlib.Core.Path.{subst}
use onwlms.Prelude.{
  List, Option, String, [], ap, arith, contains, inl, inr, nat_eq, pair_eq, refl, string_eq, sym,
  true, ◌++◌, ◌∷◌, ◌≡◌, ◌⊎◌,
}
use onwlms.Core.{PlatformActorContext, Result, Result-cases, Uuid, ok}
use onwlms.Core.Exec.{◌>>=◌}
use onwlms.Core.Exec.Relates.{Relates}
use onwlms.Entitlements.Service.{
  Catalogue, EntitlementEvent, EntitlementPorts, event_of, manage_entitlements_permission,
  record_change,
}
use onwlms.Entitlements.Tables.{Tables}

module _ (ports : EntitlementPorts) (actor : PlatformActorContext) where
  -- The tables are as before, or an actor with platform authority has made the write, and the first
  -- event that the call has logged is the intent of this write under the actor's name.
  abbrev pub Governed :
      (Tables → Tables → EntitlementEvent → Type 0) → Catalogue → Catalogue → Type 0
  Governed Intent c c' =
      (c'.tables ≡ c.tables)
      ⊎ ((contains manage_entitlements_permission actor.permissions ≡ true)
          × ((event : EntitlementEvent) × (rest : List EntitlementEvent) × Intent c.tables c'.tables
                event
              × (event.outcome ≡ "intent_recorded")
              × (event.actor_subject_id ≡ actor.subject_id)
              × (event.correlation_id ≡ actor.correlation_id)
              × (c'.events ≡ c.events ++ event ∷ rest)))

  module _ (Intent : Tables → Tables → EntitlementEvent → Type 0) where
    pub Governed-same : (c : Catalogue) → Governed Intent c c
    Governed-same c = inl refl

    written :
        (c c' : Catalogue) (t : Tables) (requested : String) (id : Uuid) (org : Option Uuid)
        (rest : List EntitlementEvent)
        → contains manage_entitlements_permission actor.permissions ≡ true
        → Intent c.tables t (event_of actor requested id org "intent_recorded")
        → c' ≡ record {
          tables = t;
          events = c.events ++ event_of actor requested id org "intent_recorded" ∷ rest;
        }
        → Governed Intent c c'
    written c c' t requested id org rest allowed intent e = inr (
      allowed,
      (
        event_of actor requested id org "intent_recorded",
        rest,
        subst (λ t. Intent c.tables t (event_of actor requested id org "intent_recorded"))
            (sym (ap (λ c. c.tables) e)) intent,
        refl,
        refl,
        refl,
        ap (λ c. c.events) e,
      ),
    )

    pub record_change_at :
        {A : Type 0} (requested completed : String) (id : Uuid) (org : Option Uuid)
        (store : Tables → Result Tables) (answer : A) (c : Catalogue)
        → contains manage_entitlements_permission actor.permissions ≡ true
        → ((t : Tables)
            → store c.tables ≡ ok t
            → Intent c.tables t (event_of actor requested id org "intent_recorded"))
        → Governed Intent c (record_change ports actor requested completed id org store answer c).1
    unfolding record_change ◌>>=◌
    record_change_at requested completed id org store answer c allowed writes =
        let intent = event_of actor requested id org "intent_recorded" in
        let success = event_of actor completed id org "succeeded" in
        elim (Result-cases (ports.record_entitlement intent)) [
          | inr (e, refused) ↦ inl (ground arith)
          | inl (u, taken) ↦ elim (Result-cases (store c.tables)) [
            | inr (e, h) ↦ inl (ground arith)
            | inl (t, h) ↦ elim (Result-cases (ports.record_entitlement success)) [
              | inr (e, h2) ↦ written c _ t requested id org [] allowed (writes t h) (ground arith)
              | inl (v, h2) ↦
                  written c _ t requested id org (success ∷ []) allowed (writes t h)
                    (ground (arith, append_assoc c.events (intent ∷ []) (success ∷ [])))
            ]
          ]
        ]

    pub record_change-Governed :
        {A : Type 0} (requested completed : String) (id : Uuid) (org : Option Uuid)
        (store : Tables → Result Tables) (answer : A)
        → contains manage_entitlements_permission actor.permissions ≡ true
        → ((t t' : Tables)
            → store t ≡ ok t'
            → Intent t t' (event_of actor requested id org "intent_recorded"))
        → Relates
            (Governed Intent)
            (record_change ports actor requested completed id org store answer)
    record_change-Governed requested completed id org store answer allowed writes = record {
      at =
          λ c. record_change_at requested completed id org store answer c allowed (writes c.tables);
    }
