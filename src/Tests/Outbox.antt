-- ===== src/Tests/Outbox.antt =====
-- A small outbox, for the theorems on backend/src/outbox.
use onwlms.Prelude.{
  All, List, String, [], false, if◌then◌else◌, nat_eq, none, pair_eq, refl, some, string_eq, ◌<◌,
  ◌==◌, ◌∷◌, ◌≡◌,
}
use onwlms.Prelude.Dict.{lookup}
use onwlms.Prelude.Quantifiers.{Member, Pointwise}
use onwlms.Core.{Uuid}
use onwlms.Outbox.Batches.{IsServed, chosen, process_batch-IsServed}
use onwlms.Outbox.Retries.{PutOff, record_failure-PutOff}
use onwlms.Outbox.Rows.{
  OutboxRow, OutboxStatus, claim_batch, claim_row, lease, mark_processed, new_row, owns,
  processed_row, record_failure, selected,
}
use onwlms.Outbox.Settled.{IsDue}
use onwlms.Outbox.Steps.{FollowsAll, OutboxCall, perform_all, perform_all-FollowsAll}
use onwlms.Outbox.Worker.{OutboxWorker, handle_event, process_batch, process_events}

abbrev waiting : Uuid → String → OutboxRow
waiting id key = new_row id "activation" key 10

abbrev leased : Uuid → String → OutboxRow
leased id key = lease 20 "w" (waiting id key)

abbrev worker : OutboxWorker
worker = record {
  worker_id = "w";
  max_attempts = 3;
  lease_seconds = 300;
  handlers = ("activation", λ event. if event.id == 2 then some "handler_error" else none) ∷ [];
}

abbrev two_rows : List OutboxRow
two_rows = waiting 1 "a" ∷ waiting 2 "b" ∷ []

-- The first event is processed, the second one is put off for two seconds.
batch : process_batch worker (λ id. false) 20 (λ id. 30) 25 two_rows ≡ (
  2,
  processed_row 30 (leased 1 "a")
      ∷ record (leased 2 "b") {
        status = OutboxStatus.retry;
        locked_at = none;
        locked_by = none;
        last_error_code = some "handler_error";
        available_at = 2_000_030;
      }
      ∷ [],
)
unfolding process_batch claim_batch selected claim_row process_events handle_event mark_processed
    record_failure lookup
batch = refl

process_batch-IsServed_example :
    let batch = process_batch worker (λ id. false) 20 (λ id. 30) 25 two_rows in
    All (λ r. owns "w" r ≡ false) batch.1
    × Pointwise (IsServed worker (λ id. false) 20 (λ id. 30) 25 two_rows) two_rows batch.1
    × (batch.0 < 25
        → All
            (λ r.
              IsDue 20 300 r
              → false ≡ false
              → Member r (chosen worker (λ id. false) 20 (λ id. 30) 25 two_rows))
            two_rows)
process_batch-IsServed_example =
    process_batch-IsServed worker (λ id. false) 20 (λ id. 30) 25 two_rows refl (refl, (refl, tt))

abbrev calls : List OutboxCall
calls =
    OutboxCall.adds 3 "activation" "a" 15
    ∷ OutboxCall.claims (λ id. false) 20 "w" 25 300
    ∷ OutboxCall.completes 30 1 "w"
    ∷ OutboxCall.fails 30 1 "w" "late" 2 3
    ∷ []

perform_all-FollowsAll_example : FollowsAll two_rows (perform_all calls two_rows)
perform_all-FollowsAll_example = perform_all-FollowsAll calls two_rows

record_failure-PutOff_example :
    PutOff 30 2 3 (leased 2 "b") (record_failure 30 2 "w" "handler_error" 2 3 (leased 2 "b"))
record_failure-PutOff_example = record_failure-PutOff 30 "w" "handler_error" 2 3 (leased 2 "b") refl
