-- ===== src/Outbox/Settled.antt =====
-- What becomes of each row in a batch of a worker
-- (backend/src/outbox/application/worker.py and backend/src/outbox/infrastructure/repository.py).
use mathlib.Core.Path.{ap₂, subst}
use onwlms.Prelude.{
  Bool-cases, List, Option, String, [], ap, arith, contains, false, if◌then◌else◌, inl, inr, map,
  nat_eq, none, pair_eq, refl, some, string_eq, suc, sym, true, zero, ℕ, ◌&&◌, ◌*◌, ◌+◌, ◌-◌, ◌<◌,
  ◌==◌, ◌^◌, ◌↔◌, ◌∙◌, ◌∷◌, ◌≡◌, ◌≤◌, ◌⊎◌,
}
use onwlms.Prelude.Dict.{lookup}
use onwlms.Prelude.Members.{map-map, map_id}
use onwlms.Prelude.Quantifiers.{Member}
use onwlms.Core.{Uuid}
use onwlms.Outbox.Rows.{
  OutboxRow, OutboxStatus, back_off, claim_row, failed_row, is_claimable, lease, mark_processed,
  owns, processed_row, record_failure, seconds,
}
use onwlms.Outbox.Worker.{OutboxWorker, handle_event, process_events, settle_row}

-- A row that is to be handed out at a time: it waits and its time has come, or its lease has ended.
abbrev pub IsDue : ℕ → ℕ → OutboxRow → Type 0
IsDue now lease_seconds r =
    (((r.status ≡ OutboxStatus.pending) ⊎ (r.status ≡ OutboxStatus.retry)) × (r.available_at ≤ now))
    ⊎ ((r.status ≡ OutboxStatus.processing)
        × ((at : ℕ) × (r.locked_at ≡ some at) × (at + lease_seconds * 1_000_000 ≤ now)))

pub is_claimable_iff :
    (now lease_seconds : ℕ) (r : OutboxRow)
    → (is_claimable now lease_seconds r ≡ true) ↔ IsDue now lease_seconds r
is_claimable_iff now lease_seconds r = ground arith

pub claim_row-leases :
    (now : ℕ) (worker_id : String) (lease_seconds : ℕ) (ids : List Uuid) (r : OutboxRow)
    → contains r.id ids ≡ true
    → is_claimable now lease_seconds r ≡ true
    → claim_row now worker_id lease_seconds ids r ≡ lease now worker_id r
unfolding claim_row
claim_row-leases now worker_id lease_seconds ids r m due =
    ap (λ b. if b then lease now worker_id r else r) (ap₂ ◌&&◌ m due)

pub claim_row-leaves :
    (now : ℕ) (worker_id : String) (lease_seconds : ℕ) (ids : List Uuid) (r : OutboxRow)
    → contains r.id ids ≡ false
    → claim_row now worker_id lease_seconds ids r ≡ r
unfolding claim_row
claim_row-leaves now worker_id lease_seconds ids r m =
    ap (λ b. if b && is_claimable now lease_seconds r then lease now worker_id r else r) m

-- The row that was leased from another one, once its event has been handled, or has failed with the
-- code, at a time.
abbrev pub IsSettled : OutboxWorker → ℕ → Option String → OutboxRow → OutboxRow → Type 0
IsSettled w at none r r' =
    (r'.id ≡ r.id)
    × (r'.attempts ≡ r.attempts + 1)
    × (r'.locked_by ≡ none)
    × (r'.status ≡ OutboxStatus.processed)
    × (r'.processed_at ≡ some at)
IsSettled w at (some code) r r' =
    (r'.id ≡ r.id)
    × (r'.attempts ≡ r.attempts + 1)
    × (r'.locked_by ≡ none)
    × (r'.last_error_code ≡ some code)
    × (((w.max_attempts ≤ r.attempts + 1) × (r'.status ≡ OutboxStatus.quarantined))
        ⊎ ((r.attempts + 1 < w.max_attempts)
            × (r'.status ≡ OutboxStatus.retry)
            × (at + 2_000_000 ≤ r'.available_at)))

-- The error code of an event, if its handler fails or if none is registered for its type.
abbrev pub Outcome : OutboxWorker → OutboxRow → Option String → Type 0
Outcome w event o =
    ((handler : OutboxRow → Option String) × (lookup event.event_type w.handlers ≡ some handler)
      × (o ≡ handler event))
    ⊎ ((lookup event.event_type w.handlers ≡ none) × (o ≡ some "handler_not_registered"))

pub handle_event-Outcome :
    (w : OutboxWorker) (event : OutboxRow) → Outcome w event (handle_event w event)
unfolding handle_event
handle_event-Outcome w event = run (lookup event.event_type w.handlers) refl
  where
    run :
        (found : Option (OutboxRow → Option String))
        → lookup event.event_type w.handlers ≡ found
        → Outcome w event
            (elim found [ none ↦ some "handler_not_registered" | some handler ↦ handler event ])
    run none e = inr (e, refl)
    run (some handler) e = inl (handler, e, refl)

power_pos : (n : ℕ) → 1 ≤ 2 ^ n
power_pos zero = omega arith
power_pos (suc n) = omega (arith, power_pos n)

delay_least : (now n : ℕ) → now + 2_000_000 ≤ now + seconds (2 * back_off n)
delay_least now n = ground (arith, power_pos 8, power_pos (n - 1))

module _ (w : OutboxWorker) where
  settle_row-free :
      (at : ℕ) (id : Uuid) (o : Option String) (r : OutboxRow)
      → owns w.worker_id r ≡ false
      → settle_row w at id o r ≡ r
  unfolding mark_processed record_failure
  settle_row-free at id none r h = ground (arith, h)
  settle_row-free at id (some code) r h = ground (arith, h)

  settle_row-other :
      (at : ℕ) (id : Uuid) (o : Option String) (r : OutboxRow)
      → (r.id == id) ≡ false
      → settle_row w at id o r ≡ r
  unfolding mark_processed record_failure
  settle_row-other at id none r h = ground (arith, h)
  settle_row-other at id (some code) r h = ground (arith, h)

  settle_row-released :
      (at : ℕ) (o : Option String) (r : OutboxRow)
      → owns w.worker_id (settle_row w at r.id o r) ≡ false
  unfolding mark_processed record_failure
  settle_row-released at none r = ground arith
  settle_row-released at (some code) r = ground arith

  lease-owned :
      (claimed_at : ℕ) (r : OutboxRow) → owns w.worker_id (lease claimed_at w.worker_id r) ≡ true
  lease-owned claimed_at r = ground (arith, (string_eq.beq_iff w.worker_id w.worker_id).1 refl)

  settle_row-processes :
      (at : ℕ) (r : OutboxRow)
      → owns w.worker_id r ≡ true
      → settle_row w at r.id none r ≡ processed_row at r
  unfolding mark_processed
  settle_row-processes at r h = ground (arith, h)

  settle_row-fails :
      (at : ℕ) (code : String) (r : OutboxRow)
      → owns w.worker_id r ≡ true
      → settle_row w at r.id (some code) r ≡ failed_row at code 2 w.max_attempts r
  unfolding record_failure
  settle_row-fails at code r h = ground (arith, h)

  failed_row-IsSettled :
      (claimed_at at : ℕ) (code : String) (r : OutboxRow)
      → IsSettled w at
          (some code)
          r
          (failed_row at code 2 w.max_attempts (lease claimed_at w.worker_id r))
  failed_row-IsSettled claimed_at at code r = ground (arith, delay_least at (r.attempts + 1))

  pub settle_row-IsSettled :
      (claimed_at at : ℕ) (o : Option String) (r : OutboxRow)
      → IsSettled w at o r (settle_row w at r.id o (lease claimed_at w.worker_id r))
  settle_row-IsSettled claimed_at at none r =
      subst (IsSettled w at none r)
        (sym (settle_row-processes at (lease claimed_at w.worker_id r) (lease-owned claimed_at r)))
        (refl, refl, refl, refl, refl)
  settle_row-IsSettled claimed_at at (some code) r =
      subst (IsSettled w at (some code) r)
        (sym (settle_row-fails at code (lease claimed_at w.worker_id r) (lease-owned claimed_at r)))
        (failed_row-IsSettled claimed_at at code r)

  -- One row through the loop over the events.
  abbrev pub settled : (Uuid → ℕ) → List OutboxRow → OutboxRow → OutboxRow
  settled now [] r = r
  settled now (event ∷ events) r =
      settled now events (settle_row w (now event.id) event.id (handle_event w event) r)

  pub process_events-map :
      (now : Uuid → ℕ) (events rows : List OutboxRow)
      → process_events w now events rows ≡ map (settled now events) rows
  unfolding process_events
  process_events-map now [] rows = sym (map_id rows)
  process_events-map now (event ∷ events) rows =
      process_events-map now events _
      ∙ map-map (settle_row w (now event.id) event.id (handle_event w event)) (settled now events)
          rows

  pub settled-free :
      (now : Uuid → ℕ) (events : List OutboxRow) (r : OutboxRow)
      → owns w.worker_id r ≡ false
      → settled now events r ≡ r
  settled-free now [] r h = refl
  settled-free now (event ∷ events) r h =
      ap (settled now events) (settle_row-free (now event.id) event.id (handle_event w event) r h)
      ∙ settled-free now events r h

  -- The first event with the identifier settles the row.
  pub settled-owned :
      (now : Uuid → ℕ) (o : Option String) (events : List OutboxRow) (r : OutboxRow)
      → contains r.id (map (λ (e : OutboxRow). e.id) events) ≡ true
      → ((e : OutboxRow) → Member e events → e.id ≡ r.id → handle_event w e ≡ o)
      → settled now events r ≡ settle_row w (now r.id) r.id o r
  settled-owned now o [] r m same = absurd (ground (arith, m))
  settled-owned now o (event ∷ events) r m same = elim (Bool-cases (r.id == event.id)) [
    | inl h ↦
        let e : event.id ≡ r.id = ground (arith, h) in
        ap (settled now events)
          (ap₂ (λ i o. settle_row w (now i) i o r) e (same event (inl refl) e))
        ∙ settled-free now events _ (settle_row-released (now r.id) o r)
    | inr h ↦
        ap (settled now events)
          (settle_row-other (now event.id) event.id (handle_event w event) r h)
        ∙ settled-owned now o events r (ground (arith, m, h)) (λ e n. same e (inr n))
  ]
