-- ===== src/Entitlements/Lifecycle.antt =====
-- The rows of backend/src/entitlements/infrastructure/repository.py under its writes, and the
-- lifecycle of subscriptions.
use mathlib.Core.Path.{subst}
use onwlms.Prelude.{
  Option, arith, nat_beq_iff, nat_eq, none, pair_eq, refl, some, string_eq, sym, ◌≡◌, ◌≢◌, ◌⊎◌,
}
use onwlms.Prelude.Dict.{insert, lookup}
use onwlms.Core.{>>=-eq-ok, Result, ok}
use onwlms.Entitlements.Models.{
  Subscription, SubscriptionStatus, cancel, feature_eq, reactivate, subscription_eq, suspend,
}
use onwlms.Entitlements.Tables.{Tables, assign_row, locked_row, update_subscription}

pub assign-eq-ok :
    (s : Subscription) (t t' : Tables)
    → assign_row s t ≡ ok t'
    → t' ≡ record t { subscriptions = insert s.organization_id s t.subscriptions }
unfolding assign_row
assign-eq-ok s t t' h = ground arith

pub update-eq-ok :
    (s : Subscription) (expected : SubscriptionStatus) (t t' : Tables)
    → update_subscription s expected t ≡ ok t'
    → (locked_row s expected (lookup s.organization_id t.subscriptions) ≡ ok tt)
      × (assign_row s t ≡ ok t')
unfolding update_subscription
update-eq-ok s expected t t' h =
    let (u, locked, written) =
      >>=-eq-ok (locked_row s expected (lookup s.organization_id t.subscriptions)) _ h in
    (locked, written)

locked-eq-ok :
    (s : Subscription) (expected : SubscriptionStatus) (o : Option Subscription)
    → locked_row s expected o ≡ ok tt
    → (row : Subscription) × (o ≡ some row) × (row.id ≡ s.id) × (row.status ≡ expected)
locked-eq-ok s expected none h = absurd (ground arith)
locked-eq-ok s expected (some row) h = (
  row,
  refl,
  ground (arith, nat_beq_iff row.id s.id),
  ground (arith, subscription_eq.beq_iff row.status expected),
)

-- The transitions of a subscription.
pub data Transition : Type 0 where
  suspends reactivates cancels : Transition

abbrev pub transition : Transition → Subscription → Result Subscription
transition Transition.suspends s = suspend s
transition Transition.reactivates s = reactivate s
transition Transition.cancels s = cancel s

-- How a status may change: a canceled one never does, and trialing is only a beginning.
abbrev pub Changes : SubscriptionStatus → SubscriptionStatus → Type 0
Changes s SubscriptionStatus.trialing = ⊥
Changes s SubscriptionStatus.active = s ≡ SubscriptionStatus.suspended
Changes s SubscriptionStatus.suspended =
    (s ≡ SubscriptionStatus.active) ⊎ (s ≡ SubscriptionStatus.trialing)
Changes s SubscriptionStatus.canceled = s ≢ SubscriptionStatus.canceled

abbrev pub target : Transition → SubscriptionStatus
target Transition.suspends = SubscriptionStatus.suspended
target Transition.reactivates = SubscriptionStatus.active
target Transition.cancels = SubscriptionStatus.canceled

pub transition-eq-ok :
    (m : Transition) (s s' : Subscription)
    → transition m s ≡ ok s'
    → Changes s.status (target m) × (s' ≡ record s { status = target m })
unfolding suspend reactivate cancel
transition-eq-ok Transition.suspends s s' h = ground arith
transition-eq-ok Transition.reactivates s s' h = ground arith
transition-eq-ok Transition.cancels s s' h = ground arith

-- A transition that was computed from a row read earlier goes through only if the row is still
-- the same subscription in the same status, whatever was written since. The row then changes along
-- the lifecycle, and nothing else of the tables does.
pub update-Changes :
    (m : Transition) (read transitioned : Subscription) (t t' : Tables)
    → transition m read ≡ ok transitioned
    → update_subscription transitioned read.status t ≡ ok t'
    → (row : Subscription) × (lookup read.organization_id t.subscriptions ≡ some row)
      × (row.id ≡ read.id)
      × (row.status ≡ read.status)
      × Changes row.status (target m)
      × (t' ≡ record t {
        subscriptions =
            insert read.organization_id (record read { status = target m }) t.subscriptions;
      })
update-Changes m read transitioned t t' moved done =
    let (change, same) = transition-eq-ok m read transitioned moved in
    let next : Subscription = record read { status = target m } in
    let (locked, written) =
      update-eq-ok next read.status t t'
        (subst (λ s. update_subscription s read.status t ≡ ok t') same done) in
    let (row, e, id, status) = locked-eq-ok next read.status _ locked in
    (
      row,
      e,
      id,
      status,
      subst (λ s. Changes s (target m)) (sym status) change,
      assign-eq-ok next t t' written,
    )
