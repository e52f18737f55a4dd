-- ===== src/Outbox/Worker.antt =====
-- `OutboxWorker.process_batch` of backend/src/outbox/application/worker.py. A handler is a function
-- that says with which error code it failed, if it did: the code is a digest of the exception's
-- class. The readings of `utc_now` and the rows that are skipped are arguments.
use onwlms.Prelude.{
  Bool, List, Option, String, [], length, map, nat_eq, none, pair_eq, some, string_eq, ℕ, ◌∷◌,
}
use onwlms.Prelude.Dict.{Dict, lookup}
use onwlms.Core.{Uuid}
use onwlms.Outbox.Rows.{OutboxRow, claim_batch, mark_processed, record_failure}

pub record OutboxWorker : Type 0 where
  pub worker_id : String
  pub max_attempts : ℕ
  pub lease_seconds : ℕ
  pub handlers : Dict String (OutboxRow → Option String)

-- What becomes of a row when its event has been handled, or has failed.
abbrev pub settle_row : OutboxWorker → ℕ → Uuid → Option String → OutboxRow → OutboxRow
settle_row w now event_id none r = mark_processed now event_id w.worker_id r
settle_row w now event_id (some error_code) r =
    record_failure now event_id w.worker_id error_code 2 w.max_attempts r

-- The error code of an event, if it is not handled.
unfoldable pub handle_event : OutboxWorker → OutboxRow → Option String
handle_event w event = elim (lookup event.event_type w.handlers) [
  | none ↦ some "handler_not_registered"
  | some handler ↦ handler event
]

-- The loop over the events.
unfoldable pub process_events :
    OutboxWorker → (Uuid → ℕ) → List OutboxRow → List OutboxRow → List OutboxRow
process_events w now [] rows = rows
process_events w now (event ∷ events) rows =
    process_events w now events
      (map (settle_row w (now event.id) event.id (handle_event w event)) rows)

-- The number of events, and the rows afterwards.
unfoldable pub process_batch :
    OutboxWorker → (Uuid → Bool) → ℕ → (Uuid → ℕ) → ℕ → List OutboxRow → ℕ × List OutboxRow
process_batch w skipped claimed_at now batch_size rows =
    let (events, claimed) =
      claim_batch skipped claimed_at w.worker_id batch_size w.lease_seconds rows in
    (length events, process_events w now events claimed)
