-- ===== src/Scheduling/Intervals.antt =====
-- The intervals of backend/src/scheduling/domain/models.py as sets of instants.
use onwlms.Prelude.{
  arith, if◌then◌else◌, ltb, nat_eq, pair_eq, string_eq, true, ℕ, ◌-◌, ◌<◌, ◌↔◌, ◌≡◌, ◌≤◌,
}
use onwlms.Scheduling.Windows.{TimeWindow, overlaps, window_contains}

-- An instant of a half-open window.
abbrev pub Within : ℕ → TimeWindow → Type 0
Within t w = (w.starts_at.instant ≤ t) × (t < w.ends_at.instant)

abbrev pub IsWindow : TimeWindow → Type 0
IsWindow w = w.starts_at.instant < w.ends_at.instant

abbrev latest : ℕ → ℕ → ℕ
latest a b = if ltb a b then b else a

-- Two windows overlap exactly when some instant lies in both.
pub overlaps_iff :
    (w v : TimeWindow)
    → IsWindow w
    → IsWindow v
    → (overlaps w v ≡ true) ↔ ((t : ℕ) × Within t w × Within t v)
unfolding overlaps
overlaps_iff w v hw hv = (
  λ h. (latest w.starts_at.instant v.starts_at.instant, ground arith, ground arith),
  λ h. ground arith,
)

-- A window contains another exactly when each of its instants is its own.
pub window_contains_iff :
    (w v : TimeWindow)
    → IsWindow v
    → (window_contains w v ≡ true) ↔ ((t : ℕ) → Within t v → Within t w)
unfolding window_contains
window_contains_iff w v hv =
    (λ h t i. ground arith, λ h. ground (arith, h v.starts_at.instant, h (v.ends_at.instant - 1)))
