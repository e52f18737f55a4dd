-- ===== src/Outbox/Retries.antt =====
-- How long `record_failure` of backend/src/outbox/infrastructure/repository.py puts an event off.
use mathlib.Core.Path.{subst}
use native.Mathlib.Nat.{pow-le-pow_right, mul-le-mul_left}
use onwlms.Prelude.{
  Bool-cases, String, arith, false, if◌then◌else◌, inl, inr, leb, leb→le, ltb, nat_eq, none,
  pair_eq, refl, string_eq, sym, true, ℕ, ◌*◌, ◌+◌, ◌-◌, ◌<◌, ◌^◌, ◌≡◌, ◌≤◌, ◌⊎◌,
}
use onwlms.Prelude.Dict.{beq_refl}
use onwlms.Outbox.Rows.{
  OutboxRow, OutboxStatus, back_off, failed_row, owns, record_failure, seconds,
}

power-le : (n : ℕ) → n ≤ 8 → (1 ≤ 2 ^ n) × (2 ^ n ≤ 256)
power-le n h = (
  pow-le-pow_right {n = 2} (omega arith) {i = 0} {j = n} (omega arith),
  pow-le-pow_right {n = 2} (omega arith) {i = n} {j = 8} h,
)

back_off-le : (attempts : ℕ) → (1 ≤ back_off attempts) × (back_off attempts ≤ 256)
back_off-le attempts = power-le (if ltb (attempts - 1) 8 then attempts - 1 else 8) (ground arith)

put_off :
    (now delay b : ℕ)
    → 1 ≤ b
    → b ≤ 256
    → (now + seconds delay ≤ now + seconds (delay * b))
      × (now + seconds (delay * b) ≤ now + seconds (delay * 256))
put_off now delay b low high =
    let l : delay * 1 ≤ delay * b = mul-le-mul_left delay low in
    let h : delay * b ≤ delay * 256 = mul-le-mul_left delay high in
    (omega (arith, l), omega (arith, h))

-- What a failure makes of a row.
abbrev pub PutOff : ℕ → ℕ → ℕ → OutboxRow → OutboxRow → Type 0
PutOff now delay most r r' =
    (r'.locked_by ≡ none)
    × (((r'.status ≡ OutboxStatus.quarantined) × (most ≤ r.attempts))
        ⊎ ((r'.status ≡ OutboxStatus.retry)
            × (r.attempts < most)
            × (now + seconds delay ≤ r'.available_at)
            × (r'.available_at ≤ now + seconds (delay * 256))))

quarantined_row :
    (now : ℕ) (code : String) (delay most : ℕ) (r : OutboxRow)
    → leb most r.attempts ≡ true
    → ((failed_row now code delay most r).status ≡ OutboxStatus.quarantined)
      × ((failed_row now code delay most r).locked_by ≡ none)
quarantined_row now code delay most r h = rw h (refl, refl)

retry_row :
    (now : ℕ) (code : String) (delay most : ℕ) (r : OutboxRow)
    → leb most r.attempts ≡ false
    → ((failed_row now code delay most r).status ≡ OutboxStatus.retry)
      × ((failed_row now code delay most r).locked_by ≡ none)
      × ((failed_row now code delay most r).available_at
          ≡ now + seconds (delay * back_off r.attempts))
retry_row now code delay most r h = rw h (refl, refl, refl)

failed_row-PutOff :
    (now : ℕ) (code : String) (delay most : ℕ) (r : OutboxRow)
    → PutOff now delay most r (failed_row now code delay most r)
failed_row-PutOff now code delay most r =
    let (low, high) = back_off-le r.attempts in
    let (least, longest) = put_off now delay (back_off r.attempts) low high in
    elim (Bool-cases (leb most r.attempts)) [
      | inl used ↦
          let (status, free) = quarantined_row now code delay most r used in
          (free, inl (status, leb→le _ _ used))
      | inr left ↦
          let (status, free, at) = retry_row now code delay most r left in
          (
            free,
            inr (
              status,
              ground (arith, left),
              subst (λ t. now + seconds delay ≤ t) (sym at) least,
              subst (λ t. t ≤ now + seconds (delay * 256)) (sym at) longest,
            ),
          )
    ]

failed :
    (now : ℕ) (worker_id code : String) (delay most : ℕ) (r : OutboxRow)
    → owns worker_id r ≡ true
    → record_failure now r.id worker_id code delay most r ≡ failed_row now code delay most r
unfolding record_failure
failed now worker_id code delay most r held = rw (beq_refl r.id, held) refl

-- The failure of an event that the worker owns ends the lease. With all attempts used the event is
-- quarantined, and before that it waits at least the delay and at most 256 times as long.
pub record_failure-PutOff :
    (now : ℕ) (worker_id code : String) (delay most : ℕ) (r : OutboxRow)
    → owns worker_id r ≡ true
    → PutOff now delay most r (record_failure now r.id worker_id code delay most r)
record_failure-PutOff now worker_id code delay most r held =
    subst (PutOff now delay most r) (sym (failed now worker_id code delay most r held))
      (failed_row-PutOff now code delay most r)
