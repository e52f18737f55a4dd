-- ===== src/Outbox/Batches.antt =====
-- What a batch of a worker does to the rows, and which rows it takes
-- (backend/src/outbox/application/worker.py and backend/src/outbox/infrastructure/repository.py).
use mathlib.Core.Path.{subst}
use onwlms.Prelude.{
  All, Bool, Bool-cases, List, Option, String, ap, arith, contains, false, filter, inl, inr,
  is_unique, leb, length, map, nat_eq, not, pair_eq, sort, string_eq, sym, true, ℕ, ◌<◌, ◌∙◌, ◌≡◌,
}
use onwlms.Prelude.Members.{
  Member-map, Member-take, Member-take_all, Pointwise-map, contains-map, length-map, map-map,
  unique_same,
}
use onwlms.Prelude.Quantifiers.{All-of, All_at, Member, Member-filter, Member-sort, Pointwise}
use onwlms.Prelude.Sums.{contains-Member}
use onwlms.Core.{Uuid}
use onwlms.Outbox.Leases.{process_batch-releases}
use onwlms.Outbox.Rows.{OutboxRow, claim_batch, claim_row, is_claimable, lease, owns, selected}
use onwlms.Outbox.Settled.{
  IsDue, IsSettled, Outcome, claim_row-leaves, handle_event-Outcome, is_claimable_iff,
  process_events-map, settle_row-IsSettled, settled, settled-free, settled-owned,
}
use onwlms.Outbox.Worker.{OutboxWorker, handle_event, process_batch, settle_row}

module _ (w : OutboxWorker) (skipped : Uuid → Bool) (claimed_at : ℕ) (now : Uuid → ℕ)
    (batch_size : ℕ) (rows : List OutboxRow) where
  abbrev pub chosen : List OutboxRow
  chosen = selected skipped claimed_at batch_size w.lease_seconds rows

  -- A row that is selected is due and settled by the outcome of its own event, any other stays.
  abbrev pub IsServed : OutboxRow → OutboxRow → Type 0
  IsServed r r' =
      (Member r chosen
        → IsDue claimed_at w.lease_seconds r
          × ((o : Option String) × Outcome w (lease claimed_at w.worker_id r) o
              × IsSettled w (now r.id) o r r'))
      × ((Member r chosen → ⊥) → r' ≡ r)

  chosen_in :
      (r : OutboxRow)
      → Member r chosen
      → Member r rows × (is_claimable claimed_at w.lease_seconds r ≡ true)
  unfolding selected
  chosen_in r m =
      let ready = filter (is_claimable claimed_at w.lease_seconds) rows in
      let in_order = sort (λ (x y : OutboxRow). leb x.created_at y.created_at) ready in
      let free = Member-take batch_size r (filter (λ r. not (skipped r.id)) in_order) m in
      let sorted = ((Member-filter (λ r. not (skipped r.id)) r in_order).0 free).0 in
      (Member-filter (is_claimable claimed_at w.lease_seconds) r rows).0
        ((Member-sort (λ x y. leb x.created_at y.created_at) r ready).0 sorted)

  due_chosen :
      length chosen < batch_size
      → (r : OutboxRow) → Member r rows
      → IsDue claimed_at w.lease_seconds r
      → skipped r.id ≡ false
      → Member r chosen
  unfolding selected
  due_chosen spare r m due free =
      let ready = filter (is_claimable claimed_at w.lease_seconds) rows in
      let in_order = sort (λ (x y : OutboxRow). leb x.created_at y.created_at) ready in
      let claimable = (is_claimable_iff claimed_at w.lease_seconds r).1 due in
      let sorted =
        (Member-sort (λ x y. leb x.created_at y.created_at) r ready).1
          ((Member-filter (is_claimable claimed_at w.lease_seconds) r rows).1 (m, claimable)) in
      Member-take_all batch_size r (filter (λ r. not (skipped r.id)) in_order) spare
        ((Member-filter (λ r. not (skipped r.id)) r in_order).1 (sorted, ap not free))

  number : (process_batch w skipped claimed_at now batch_size rows).0 ≡ length chosen
  unfolding process_batch claim_batch
  number = length-map (lease claimed_at w.worker_id) chosen

  abbrev claimed : OutboxRow → OutboxRow
  claimed = claim_row claimed_at w.worker_id w.lease_seconds (map (λ r. r.id) chosen)

  abbrev served : OutboxRow → OutboxRow
  served r = settled w now (map (lease claimed_at w.worker_id) chosen) (claimed r)

  claimed-chosen : (r : OutboxRow) → Member r chosen → claimed r ≡ lease claimed_at w.worker_id r
  unfolding claim_row
  claimed-chosen r m =
      ground (arith, contains-Member (λ (r : OutboxRow). r.id) r chosen m, (chosen_in r m).1)

  module _ (different : is_unique (map (λ (r : OutboxRow). r.id) rows) ≡ true) where
    same_row : (r s : OutboxRow) → Member r rows → Member s chosen → s.id ≡ r.id → s ≡ r
    same_row r s m n e =
        unique_same (λ (r : OutboxRow). r.id) rows different s r (chosen_in s n).0 m e

    claimed-other : (r : OutboxRow) → Member r rows → (Member r chosen → ⊥) → claimed r ≡ r
    claimed-other r m other = elim (Bool-cases (contains r.id (map (λ r. r.id) chosen))) [
      | inr h ↦ claim_row-leaves claimed_at w.worker_id w.lease_seconds _ r h
      | inl h ↦
          let (s, n, e) = contains-map (λ (r : OutboxRow). r.id) r.id chosen h in
          absurd (other (subst (λ s. Member s chosen) (same_row r s m n e) n))
    ]

    own_event :
        (r : OutboxRow)
        → Member r rows
        → (e : OutboxRow) → Member e (map (lease claimed_at w.worker_id) chosen)
        → e.id ≡ r.id
        → handle_event w e ≡ handle_event w (lease claimed_at w.worker_id r)
    own_event r m e n same =
        let (s, k, leased) = Member-map (lease claimed_at w.worker_id) e chosen n in
        let id : s.id ≡ r.id = ap (λ (e : OutboxRow). e.id) leased ∙ same in
        ap (handle_event w) (sym leased ∙ ap (lease claimed_at w.worker_id) (same_row r s m k id))

    leased-contains :
        (r : OutboxRow)
        → Member r chosen
        → contains r.id (map (λ (e : OutboxRow). e.id) (map (lease claimed_at w.worker_id) chosen))
          ≡ true
    leased-contains r m =
        ap (contains r.id) (map-map (lease claimed_at w.worker_id) (λ (e : OutboxRow). e.id) chosen)
        ∙ contains-Member (λ (r : OutboxRow). r.id) r chosen m

    served-chosen :
        (r : OutboxRow)
        → Member r rows
        → Member r chosen
        → served r
          ≡ settle_row w
              (now r.id)
              r.id
              (handle_event w (lease claimed_at w.worker_id r))
              (lease claimed_at w.worker_id r)
    served-chosen r m n =
        let events = map (lease claimed_at w.worker_id) chosen in
        ap (settled w now events) (claimed-chosen r n)
        ∙ settled-owned w now (handle_event w (lease claimed_at w.worker_id r)) events
            (lease claimed_at w.worker_id r) (leased-contains r n) (own_event r m)

    chosen-IsSettled :
        (r : OutboxRow)
        → Member r rows
        → Member r chosen
        → IsDue claimed_at w.lease_seconds r
          × ((o : Option String) × Outcome w (lease claimed_at w.worker_id r) o
              × IsSettled w (now r.id) o r (served r))
    chosen-IsSettled r m n = (
      (is_claimable_iff claimed_at w.lease_seconds r).0 (chosen_in r n).1,
      (
        handle_event w (lease claimed_at w.worker_id r),
        handle_event-Outcome w (lease claimed_at w.worker_id r),
        subst (IsSettled w (now r.id) (handle_event w (lease claimed_at w.worker_id r)) r)
            (sym (served-chosen r m n))
            (settle_row-IsSettled w claimed_at (now r.id)
              (handle_event w (lease claimed_at w.worker_id r)) r),
      ),
    )

    other-stays :
        (r : OutboxRow)
        → owns w.worker_id r ≡ false
        → Member r rows
        → (Member r chosen → ⊥)
        → served r ≡ r
    other-stays r free m other =
        ap (settled w now (map (lease claimed_at w.worker_id) chosen)) (claimed-other r m other)
        ∙ settled-free w now (map (lease claimed_at w.worker_id) chosen) r free

    served_rows : (process_batch w skipped claimed_at now batch_size rows).1 ≡ map served rows
    unfolding process_batch claim_batch
    served_rows =
        process_events-map w now (map (lease claimed_at w.worker_id) chosen) (map claimed rows)
        ∙ map-map claimed (settled w now (map (lease claimed_at w.worker_id) chosen)) rows

    -- A worker that owns no row before a batch, over rows with different identifiers, owns none after
    -- it. Row by row, whatever the handlers do: a row that was selected was due and counts one attempt
    -- more, and it is processed if its handler succeeds, and otherwise keeps the error code and is
    -- quarantined if its attempts are used up, or waits at least two seconds for a retry; every other
    -- row is as before. If the batch has room left, every due row that is not skipped was selected.
    pub process_batch-IsServed :
        All (λ r. owns w.worker_id r ≡ false) rows
        → All
            (λ r. owns w.worker_id r ≡ false)
            (process_batch w skipped claimed_at now batch_size rows).1
          × Pointwise IsServed rows (process_batch w skipped claimed_at now batch_size rows).1
          × ((process_batch w skipped claimed_at now batch_size rows).0 < batch_size
              → All
                  (λ r. IsDue claimed_at w.lease_seconds r → skipped r.id ≡ false → Member r chosen)
                  rows)
    process_batch-IsServed free = (
      process_batch-releases w skipped claimed_at now batch_size rows free,
      subst (Pointwise IsServed rows) (sym served_rows) (
          Pointwise-map served IsServed rows
            (λ r m. (chosen-IsSettled r m, other-stays r (All_at _ rows free r m) m))),
      λ spare. All-of _ rows (λ r m. due_chosen (subst (λ n. n < batch_size) number spare) r m),
    )
