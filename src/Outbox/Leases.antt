-- ===== src/Outbox/Leases.antt =====
-- The leases of a worker: it gives each of them back
-- (backend/src/outbox/application/worker.py and backend/src/outbox/infrastructure/repository.py).
use mathlib.Core.Path.{subst}
use onwlms.Prelude.{
  All, Bool, List, Option, String, [], ap, arith, contains, false, map, nat_eq, none, pair_eq, refl,
  some, string_eq, sym, true, ℕ, ◌==◌, ◌∙◌, ◌∷◌, ◌≡◌,
}
use onwlms.Core.{Uuid}
use onwlms.Core.Time.{before}
use onwlms.Outbox.Rows.{
  OutboxRow, claim_batch, claim_row, lease, mark_processed, owns, record_failure, selected,
}
use onwlms.Outbox.Worker.{OutboxWorker, handle_event, process_batch, process_events, settle_row}

-- The worker owns no row but those under the identifiers.
abbrev pub OwnsOnly : String → List Uuid → List OutboxRow → Type 0
OwnsOnly worker_id ids rows = All (λ r. owns worker_id r ≡ true → contains r.id ids ≡ true) rows

settle_row-releases :
    (w : OutboxWorker) (now : ℕ) (id : Uuid) (o : Option String) (r : OutboxRow)
    → owns w.worker_id (settle_row w now id o r) ≡ true
    → (owns w.worker_id r ≡ true) × ((r.id == id) ≡ false) × ((settle_row w now id o r).id ≡ r.id)
unfolding mark_processed record_failure
settle_row-releases w now id none r h = ground arith
settle_row-releases w now id (some code) r h = ground arith

claim_row-owns :
    (now : ℕ) (worker_id : String) (lease_seconds : ℕ) (ids : List Uuid) (r : OutboxRow)
    → owns worker_id r ≡ false
    → owns worker_id (claim_row now worker_id lease_seconds ids r) ≡ true
    → contains (claim_row now worker_id lease_seconds ids r).id ids ≡ true
unfolding claim_row
claim_row-owns now worker_id lease_seconds ids r free h = ground arith

settle-OwnsOnly :
    (w : OutboxWorker) (now : ℕ) (id : Uuid) (o : Option String) (ids : List Uuid)
    (rows : List OutboxRow)
    → OwnsOnly w.worker_id (id ∷ ids) rows
    → OwnsOnly w.worker_id ids (map (settle_row w now id o) rows)
settle-OwnsOnly w now id o ids [] h = tt
settle-OwnsOnly w now id o ids (r ∷ rows) (held, h) = (
  λ owned.
      let (before, other, same) = settle_row-releases w now id o r owned in
      ap (λ i. contains i ids) same ∙ ground (arith, held before, other),
  settle-OwnsOnly w now id o ids rows h,
)

claim-OwnsOnly :
    (now : ℕ) (worker_id : String) (lease_seconds : ℕ) (ids : List Uuid) (rows : List OutboxRow)
    → All (λ r. owns worker_id r ≡ false) rows
    → OwnsOnly worker_id ids (map (claim_row now worker_id lease_seconds ids) rows)
claim-OwnsOnly now worker_id lease_seconds ids [] h = tt
claim-OwnsOnly now worker_id lease_seconds ids (r ∷ rows) (free, h) = (
  claim_row-owns now worker_id lease_seconds ids r free,
  claim-OwnsOnly now worker_id lease_seconds ids rows h,
)

OwnsOnly-nil :
    (worker_id : String) (rows : List OutboxRow)
    → OwnsOnly worker_id [] rows
    → All (λ r. owns worker_id r ≡ false) rows
OwnsOnly-nil worker_id [] h = tt
OwnsOnly-nil worker_id (r ∷ rows) (free, h) = (ground (arith, free), OwnsOnly-nil worker_id rows h)

process_events-releases :
    (w : OutboxWorker) (now : Uuid → ℕ) (events rows : List OutboxRow)
    → OwnsOnly w.worker_id (map (λ r. r.id) events) rows
    → All (λ r. owns w.worker_id r ≡ false) (process_events w now events rows)
unfolding process_events
process_events-releases w now [] rows h = OwnsOnly-nil w.worker_id rows h
process_events-releases w now (event ∷ events) rows h = process_events-releases w now events _ (
    settle-OwnsOnly w (now event.id) event.id (handle_event w event) (map (λ r. r.id) events) rows
      h)

leased-ids :
    (now : ℕ) (worker_id : String) (rows : List OutboxRow)
    → map (λ r. r.id) (map (lease now worker_id) rows) ≡ map (λ r. r.id) rows
leased-ids now worker_id [] = refl
leased-ids now worker_id (r ∷ rows) = ap (λ ids. r.id ∷ ids) (leased-ids now worker_id rows)

-- A worker that owns no row before a batch owns none after it.
pub process_batch-releases :
    (w : OutboxWorker) (skipped : Uuid → Bool) (claimed_at : ℕ) (now : Uuid → ℕ) (batch_size : ℕ)
    (rows : List OutboxRow)
    → All (λ r. owns w.worker_id r ≡ false) rows
    → All
        (λ r. owns w.worker_id r ≡ false)
        (process_batch w skipped claimed_at now batch_size rows).1
unfolding process_batch claim_batch
process_batch-releases w skipped claimed_at now batch_size rows free =
    let chosen = selected skipped claimed_at batch_size w.lease_seconds rows in
    process_events-releases w now (map (lease claimed_at w.worker_id) chosen) _ (
      subst
        (λ ids.
          OwnsOnly w.worker_id ids
            (map (claim_row claimed_at w.worker_id w.lease_seconds (map (λ r. r.id) chosen)) rows))
        (sym (leased-ids claimed_at w.worker_id chosen))
        (claim-OwnsOnly claimed_at w.worker_id w.lease_seconds (map (λ r. r.id) chosen) rows free))
