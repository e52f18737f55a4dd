-- ===== src/Academics/Meetings.antt =====
-- The weekly meetings of backend/src/academics/domain/models.py as sets of times.
use onwlms.Prelude.{
  arith, if◌then◌else◌, ltb, nat_eq, pair_eq, string_eq, true, ℕ, ◌<◌, ◌↔◌, ◌≡◌, ◌≤◌,
}
use onwlms.Academics.Models.{MeetingWindow, meeting_overlaps}

-- A time of a weekday at which a meeting is held.
abbrev pub Meets : ℕ → ℕ → MeetingWindow → Type 0
Meets day t w = (w.weekday ≡ day) × (w.starts_at ≤ t) × (t < w.ends_at)

abbrev later_start : MeetingWindow → MeetingWindow → ℕ
later_start l r = if ltb l.starts_at r.starts_at then r.starts_at else l.starts_at

-- Two meetings that are not empty overlap exactly when some time of some weekday lies in both.
pub meeting_overlaps_iff :
    (l r : MeetingWindow)
    → l.starts_at < l.ends_at
    → r.starts_at < r.ends_at
    → (meeting_overlaps l r ≡ true) ↔ ((day : ℕ) × (t : ℕ) × Meets day t l × Meets day t r)
unfolding meeting_overlaps
meeting_overlaps_iff l r hl hr =
    (λ h. (l.weekday, later_start l r, ground arith, ground arith), λ h. ground arith)
