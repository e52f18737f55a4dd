-- ===== src/Outbox/Steps.antt =====
-- Calls of the repository by any workers, in any order
-- (backend/src/outbox/infrastructure/repository.py).
use mathlib.Core.Path.{subst}
use onwlms.Prelude.{
  Bool, Bool-cases, List, String, [], any, ap, arith, false, inl, inr, map, nat_eq, pair_eq, refl,
  string_eq, sym, true, ℕ, ◌++◌, ◌==◌, ◌||◌, ◌∙◌, ◌∷◌, ◌≡◌, ◌≤◌, ◌⊎◌,
}
use onwlms.Core.{Uuid}
use onwlms.Outbox.Rows.{
  OutboxRow, OutboxStatus, claim_batch, claim_row, enqueue, mark_processed, new_row, record_failure,
}

-- A call, with the reading of `utc_now`.
pub data OutboxCall : Type 0 where
  adds : Uuid → String → String → ℕ → OutboxCall
  claims : (Uuid → Bool) → ℕ → String → ℕ → ℕ → OutboxCall
  completes : ℕ → Uuid → String → OutboxCall
  fails : ℕ → Uuid → String → String → ℕ → ℕ → OutboxCall

-- The rows after a call.
unfoldable pub perform : OutboxCall → List OutboxRow → List OutboxRow
perform (OutboxCall.adds id event_type key at) rows = (enqueue id event_type key at rows).1
perform (OutboxCall.claims skipped now worker_id size lease_seconds) rows =
    (claim_batch skipped now worker_id size lease_seconds rows).1
perform (OutboxCall.completes now id worker_id) rows = map (mark_processed now id worker_id) rows
perform (OutboxCall.fails now id worker_id code delay most) rows =
    map (record_failure now id worker_id code delay most) rows

unfoldable pub perform_all : List OutboxCall → List OutboxRow → List OutboxRow
perform_all [] rows = rows
perform_all (call ∷ calls) rows = perform_all calls (perform call rows)

abbrev pub is_terminal : OutboxStatus → Bool
is_terminal OutboxStatus.processed = true
is_terminal OutboxStatus.quarantined = true
is_terminal _ = false

-- The row keeps its identity, counts its attempts up, and changes no more once it is processed or
-- quarantined.
abbrev pub Follows : OutboxRow → OutboxRow → Type 0
Follows r r' =
    (r'.id ≡ r.id)
    × (r'.idempotency_key ≡ r.idempotency_key)
    × (r.attempts ≤ r'.attempts)
    × (is_terminal r.status ≡ true → r' ≡ r)

-- No row is lost, and each follows what it was.
abbrev pub FollowsAll : List OutboxRow → List OutboxRow → Type 0
FollowsAll [] rows' = Unit {0}
FollowsAll (r ∷ rows) [] = ⊥
FollowsAll (r ∷ rows) (r' ∷ rows') = Follows r r' × FollowsAll rows rows'

FollowsAll-refl : (rows : List OutboxRow) → FollowsAll rows rows
FollowsAll-refl [] = tt
FollowsAll-refl (r ∷ rows) = ((refl, refl, omega arith, λ h. refl), FollowsAll-refl rows)

Follows-trans : (r s t : OutboxRow) → Follows r s → Follows s t → Follows r t
Follows-trans r s t (id, key, le, end) (id', key', le', end') = (
  id' ∙ id,
  key' ∙ key,
  omega arith,
  λ h. end' (ap (λ (r : OutboxRow). is_terminal r.status) (end h) ∙ h) ∙ end h,
)

FollowsAll-trans :
    (rows rows' later : List OutboxRow)
    → FollowsAll rows rows'
    → FollowsAll rows' later
    → FollowsAll rows later
FollowsAll-trans [] rows' later h g = tt
FollowsAll-trans (r ∷ rows) [] later h g = elim h [ ]
FollowsAll-trans (r ∷ rows) (s ∷ rows') [] h g = elim g [ ]
FollowsAll-trans (r ∷ rows) (s ∷ rows') (t ∷ later) (h, hs) (g, gs) =
    (Follows-trans r s t h g, FollowsAll-trans rows rows' later hs gs)

FollowsAll-append : (rows more : List OutboxRow) → FollowsAll rows (rows ++ more)
FollowsAll-append [] more = tt
FollowsAll-append (r ∷ rows) more =
    ((refl, refl, omega arith, λ h. refl), FollowsAll-append rows more)

FollowsAll-map :
    (f : OutboxRow → OutboxRow)
    → ((r : OutboxRow) → Follows r (f r))
    → (rows : List OutboxRow) → FollowsAll rows (map f rows)
FollowsAll-map f h [] = tt
FollowsAll-map f h (r ∷ rows) = (h r, FollowsAll-map f h rows)

claim_row-Follows :
    (now : ℕ) (worker_id : String) (lease_seconds : ℕ) (ids : List Uuid) (r : OutboxRow)
    → Follows r (claim_row now worker_id lease_seconds ids r)
unfolding claim_row
claim_row-Follows now worker_id lease_seconds ids r = ground arith

mark_processed-Follows :
    (now : ℕ) (id : Uuid) (worker_id : String) (r : OutboxRow)
    → Follows r (mark_processed now id worker_id r)
unfolding mark_processed
mark_processed-Follows now id worker_id r = ground arith

record_failure-Follows :
    (now : ℕ) (id : Uuid) (worker_id code : String) (delay most : ℕ) (r : OutboxRow)
    → Follows r (record_failure now id worker_id code delay most r)
unfolding record_failure
record_failure-Follows now id worker_id code delay most r = ground arith

enqueue-cases :
    (id : Uuid) (event_type key : String) (at : ℕ) (rows : List OutboxRow)
    → ((enqueue id event_type key at rows).1 ≡ rows)
      ⊎ ((more : List OutboxRow) × ((enqueue id event_type key at rows).1 ≡ rows ++ more))
unfolding enqueue
enqueue-cases id event_type key at rows =
    elim (Bool-cases (any (λ r. r.id == id || r.idempotency_key == key) rows)) [
      | inl there ↦ inl (ground arith)
      | inr fresh ↦ inr (new_row id event_type key at ∷ [], ground arith)
    ]

perform-FollowsAll :
    (call : OutboxCall) (rows : List OutboxRow) → FollowsAll rows (perform call rows)
unfolding perform claim_batch
perform-FollowsAll (OutboxCall.adds id event_type key at) rows =
    elim (enqueue-cases id event_type key at rows) [
      | inl same ↦ subst (FollowsAll rows) (sym same) (FollowsAll-refl rows)
      | inr (more, longer) ↦ subst (FollowsAll rows) (sym longer) (FollowsAll-append rows more)
    ]
perform-FollowsAll (OutboxCall.claims skipped now worker_id size lease_seconds) rows =
    FollowsAll-map _ (claim_row-Follows now worker_id lease_seconds _) rows
perform-FollowsAll (OutboxCall.completes now id worker_id) rows =
    FollowsAll-map _ (mark_processed-Follows now id worker_id) rows
perform-FollowsAll (OutboxCall.fails now id worker_id code delay most) rows =
    FollowsAll-map _ (record_failure-Follows now id worker_id code delay most) rows

-- Whatever workers call and in whatever order: no row is lost, each keeps its identity, its attempts
-- only grow, and once it is processed or quarantined it changes no more.
pub perform_all-FollowsAll :
    (calls : List OutboxCall) (rows : List OutboxRow) → FollowsAll rows (perform_all calls rows)
unfolding perform_all
perform_all-FollowsAll [] rows = FollowsAll-refl rows
perform_all-FollowsAll (call ∷ calls) rows =
    FollowsAll-trans rows (perform call rows) (perform_all calls (perform call rows))
      (perform-FollowsAll call rows) (perform_all-FollowsAll calls (perform call rows))
