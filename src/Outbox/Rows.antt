-- ===== src/Outbox/Rows.antt =====
-- `SQLAlchemyOutboxRepository` of backend/src/outbox/infrastructure/repository.py over the rows of
-- backend/src/outbox/infrastructure/models.py. Times are microseconds, and a call takes the reading
-- of `utc_now` as an argument. A row that another transaction holds is skipped by `claim_batch`
-- (`SKIP LOCKED`), which is an argument too.
use onwlms.Prelude.{
  Bool, List, Option, String, [], any, contains, false, filter, if◌then◌else◌, leb, ltb, map,
  nat_eq, none, not, pair_eq, some, sort, string_eq, take, true, ℕ, ◌&&◌, ◌*◌, ◌++◌, ◌+◌, ◌-◌, ◌==◌,
  ◌^◌, ◌||◌, ◌∷◌,
}
use onwlms.Core.{Uuid}

-- The texts of the column `status`.
pub data OutboxStatus : Type 0 where
  pending retry processing processed quarantined : OutboxStatus

pub record OutboxRow : Type 0 where
  pub id : Uuid
  pub event_type : String
  pub idempotency_key : String
  pub status : OutboxStatus
  pub attempts : ℕ
  pub available_at : ℕ
  pub locked_at : Option ℕ
  pub locked_by : Option String
  pub processed_at : Option ℕ
  pub last_error_code : Option String
  pub created_at : ℕ

abbrev pub seconds : ℕ → ℕ
seconds n = n * 1_000_000

-- An event as it is stored.
abbrev pub new_row : Uuid → String → String → ℕ → OutboxRow
new_row id event_type idempotency_key occurred_at = record {
  id = id;
  event_type = event_type;
  idempotency_key = idempotency_key;
  status = OutboxStatus.pending;
  attempts = 0;
  available_at = occurred_at;
  locked_at = none;
  locked_by = none;
  processed_at = none;
  last_error_code = none;
  created_at = occurred_at;
}

-- Whether the event is accepted, and the rows afterwards: the key and the identifier are unique.
unfoldable pub enqueue : Uuid → String → String → ℕ → List OutboxRow → Bool × List OutboxRow
enqueue id event_type idempotency_key occurred_at rows =
    if any (λ r. r.id == id || r.idempotency_key == idempotency_key) rows
    then (false, rows)
    else (true, rows ++ new_row id event_type idempotency_key occurred_at ∷ [])

-- `locked_at IS NOT NULL AND locked_at <= now - lease`
abbrev pub is_abandoned : ℕ → ℕ → Option ℕ → Bool
is_abandoned now lease_seconds none = false
is_abandoned now lease_seconds (some locked_at) = leb (locked_at + seconds lease_seconds) now

-- The condition of the query in `claim_batch`.
abbrev pub is_claimable : ℕ → ℕ → OutboxRow → Bool
is_claimable now lease_seconds r = elim r.status [
  | pending ↦ leb r.available_at now
  | retry ↦ leb r.available_at now
  | processing ↦ is_abandoned now lease_seconds r.locked_at
  | processed ↦ false
  | quarantined ↦ false
]

abbrev pub lease : ℕ → String → OutboxRow → OutboxRow
lease now worker_id r = record r {
  status = OutboxStatus.processing;
  locked_at = some now;
  locked_by = some worker_id;
  attempts = r.attempts + 1;
}

-- The rows that the query selects, in its order.
unfoldable pub selected : (Uuid → Bool) → ℕ → ℕ → ℕ → List OutboxRow → List OutboxRow
selected skipped now batch_size lease_seconds rows = take batch_size (
    filter (λ r. not (skipped r.id))
      (sort (λ x y. leb x.created_at y.created_at) (filter (is_claimable now lease_seconds) rows)))

-- What `claim_batch` makes of each row: identifiers are unique, and the selected rows are claimable.
unfoldable pub claim_row : ℕ → String → ℕ → List Uuid → OutboxRow → OutboxRow
claim_row now worker_id lease_seconds ids r =
    if contains r.id ids && is_claimable now lease_seconds r then lease now worker_id r else r

-- The events, and the rows afterwards.
unfoldable pub claim_batch :
    (Uuid → Bool) → ℕ → String → ℕ → ℕ → List OutboxRow → List OutboxRow × List OutboxRow
unfolding selected claim_row
claim_batch skipped now worker_id batch_size lease_seconds rows =
    let chosen = selected skipped now batch_size lease_seconds rows in
    (
      map (lease now worker_id) chosen,
      map (claim_row now worker_id lease_seconds (map (λ r. r.id) chosen)) rows,
    )

-- `locked_by = worker_id AND status = 'processing'`
abbrev is_locked_by : Option String → String → Bool
is_locked_by none worker_id = false
is_locked_by (some w) worker_id = w == worker_id

abbrev is_processing : OutboxStatus → Bool
is_processing OutboxStatus.processing = true
is_processing _ = false

abbrev pub owns : String → OutboxRow → Bool
owns worker_id r = is_locked_by r.locked_by worker_id && is_processing r.status

abbrev pub processed_row : ℕ → OutboxRow → OutboxRow
processed_row now r = record r {
  status = OutboxStatus.processed;
  processed_at = some now;
  locked_at = none;
  locked_by = none;
}

-- `mark_processed` on each row: only the one under the identifier, if the worker owns it.
unfoldable pub mark_processed : ℕ → Uuid → String → OutboxRow → OutboxRow
mark_processed now event_id worker_id r =
    if r.id == event_id && owns worker_id r then processed_row now r else r

-- `2 ** min(attempts - 1, 8)`
abbrev pub back_off : ℕ → ℕ
back_off attempts = 2 ^ (if ltb (attempts - 1) 8 then attempts - 1 else 8)

abbrev pub failed_row : ℕ → String → ℕ → ℕ → OutboxRow → OutboxRow
failed_row now error_code retry_delay_seconds max_attempts r =
    let released : OutboxRow = record r {
      last_error_code = some error_code;
      locked_at = none;
      locked_by = none;
    } in
    if leb max_attempts r.attempts
    then record released { status = OutboxStatus.quarantined }
    else record released {
      status = OutboxStatus.retry;
      available_at = now + seconds (retry_delay_seconds * back_off r.attempts);
    }

-- `record_failure` on each row. The codes of the worker are shorter than the column, so that the cut
-- to 120 characters is left out.
unfoldable pub record_failure : ℕ → Uuid → String → String → ℕ → ℕ → OutboxRow → OutboxRow
record_failure now event_id worker_id error_code retry_delay_seconds max_attempts r =
    if r.id == event_id && owns worker_id r
    then failed_row now error_code retry_delay_seconds max_attempts r
    else r
