-- ===== src/Scheduling/Feasible.antt =====
-- What an empty answer of `detect_hard_conflicts` means
-- (backend/src/scheduling/domain/constraints.py).
use onwlms.Prelude.{
  All, Bool, List, Option, String, [], any, arith, false, leb, ltb, map, nat_eq, none, not, pair_eq,
  refl, some, string_eq, true, ℕ, ◌==◌, ◌↔◌, ◌∷◌, ◌≡◌, ◌≢◌, ◌≤◌,
}
use onwlms.Prelude.Quantifiers.{
  Any, Any-mono, Disjoint, any-true, append-eq-nil, both-nil, sorted_intersection_nil,
}
use onwlms.Core.{AppError, Uuid, ok, raise_if, scheduling_rule, ◌>>◌}
use onwlms.Scheduling.Conflicts.{
  HardConflict, conflicts_found, detect_hard_conflicts, is_uncovered, overlap_conflicts,
  room_conflicts, session_conflicts, sessions_overlap, shared, teacher_conflicts, when,
}
use onwlms.Scheduling.Context.{ConstraintContext, RoomSpecification, room, teacher_windows}
use onwlms.Scheduling.Sessions.{ScheduledSession, occurrences}
use onwlms.Scheduling.Windows.{TimeWindow, overlaps, window_contains}

-- Every occurrence lies inside one of the windows.
abbrev pub Covered : List TimeWindow → List TimeWindow → Type 0
Covered windows os = All (λ o. Any (λ w. window_contains w o ≡ true) windows) os

-- Some occurrence of the one overlaps some occurrence of the other.
abbrev pub Clash : ScheduledSession → ScheduledSession → Type 0
Clash s e = Any (λ l. Any (λ r. overlaps l r ≡ true) (occurrences e)) (occurrences s)

-- Nothing is booked twice by a session and another one at the same time.
abbrev pub Compatible : ScheduledSession → ScheduledSession → Type 0
Compatible s e =
    e.id ≢ s.id
    → Clash s e
    → (e.room_id ≢ s.room_id)
      × (Disjoint s.teacher_ids e.teacher_ids × Disjoint s.required_group_ids e.required_group_ids)

abbrev pub RoomFits : (String → String) → ScheduledSession → Option RoomSpecification → Type 0
RoomFits casefold s none = ⊥
RoomFits casefold s (some r) =
    (s.expected_attendance ≤ r.capacity) × (casefold r.room_type ≡ casefold s.required_room_type)

-- The session can be held beside the others.
pub record Feasible (casefold : String → String) (s : ScheduledSession)
    (existing : List ScheduledSession) (context : ConstraintContext) : Type 0 where
  pub tenant : s.organization_id ≡ context.organization_id
  pub tenants : All (λ e. e.organization_id ≡ s.organization_id) existing
  pub fits : RoomFits casefold s (room context s.room_id)
  pub in_calendar : Covered context.academic_calendar_windows (occurrences s)
  pub staffed : All (λ t. Covered (teacher_windows context t) (occurrences s)) s.teacher_ids
  pub apart : All (Compatible s) existing

is_uncovered_iff :
    (windows os : List TimeWindow) → (is_uncovered windows os ≡ false) ↔ Covered windows os
is_uncovered_iff windows [] = (λ h. tt, λ h. refl)
is_uncovered_iff windows (o ∷ os) =
    ground (arith, any-true (λ w. window_contains w o) windows, is_uncovered_iff windows os)

when-nil : (b : Bool) (c : HardConflict) → (when b c ≡ []) ↔ (b ≡ false)
when-nil true c = ground arith
when-nil false c = ground arith

teacher_conflicts_iff :
    (s : ScheduledSession) (context : ConstraintContext) (ts : List Uuid)
    → (teacher_conflicts s context ts ≡ [])
      ↔ All (λ t. Covered (teacher_windows context t) (occurrences s)) ts
unfolding teacher_conflicts
teacher_conflicts_iff s context [] = (λ h. tt, λ h. refl)
teacher_conflicts_iff s context (t ∷ ts) = ground (
  arith,
  teacher_conflicts_iff s context ts,
  is_uncovered_iff (teacher_windows context t) (occurrences s),
)

map-eq-nil : {A : Type 0} (f : A → HardConflict) (xs : List A) → (map f xs ≡ []) ↔ (xs ≡ [])
map-eq-nil f [] = (λ h. refl, λ h. refl)
map-eq-nil f (x ∷ xs) = (λ h. cc, λ h. cc)

Clash-iff : (s e : ScheduledSession) → (sessions_overlap s e ≡ true) ↔ Clash s e
unfolding sessions_overlap
Clash-iff s e = (
  λ h. Any-mono (λ l. (inner l).0) (occurrences s) (outer.0 h),
  λ h. outer.1 (Any-mono (λ l. (inner l).1) (occurrences s) h),
)
  where
    inner :
        (l : TimeWindow)
        → (any (overlaps l) (occurrences e) ≡ true) ↔ Any (λ r. overlaps l r ≡ true) (occurrences e)
    inner l = any-true (overlaps l) (occurrences e)

    outer :
        (any (λ l. any (overlaps l) (occurrences e)) (occurrences s) ≡ true)
        ↔ Any (λ l. any (overlaps l) (occurrences e) ≡ true) (occurrences s)
    outer = any-true (λ l. any (overlaps l) (occurrences e)) (occurrences s)

when_same_iff : (x y : Uuid) (c : HardConflict) → (when (x == y) c ≡ []) ↔ (x ≢ y)
when_same_iff x y c = ground (arith, when-nil (x == y) c)

shared_iff :
    (f : Uuid → HardConflict) (xs ys : List Uuid) → (map f (shared xs ys) ≡ []) ↔ Disjoint xs ys
shared_iff f xs ys =
    let common = sorted_intersection_nil leb xs ys in
    let all = map-eq-nil f (shared xs ys) in (λ h. common.0 (all.0 h), λ h. all.1 (common.1 h))

overlap_conflicts_iff :
    (s e : ScheduledSession)
    → (overlap_conflicts s e ≡ []) ↔ (
        (e.room_id ≢ s.room_id)
        × (Disjoint s.teacher_ids e.teacher_ids
            × Disjoint s.required_group_ids e.required_group_ids))
unfolding overlap_conflicts
overlap_conflicts_iff s e = both-nil (when_same_iff e.room_id s.room_id _) (
    both-nil (shared_iff _ s.teacher_ids e.teacher_ids)
      (shared_iff _ s.required_group_ids e.required_group_ids))

session_conflicts_iff :
    (s : ScheduledSession) (es : List ScheduledSession)
    → (session_conflicts s es ≡ []) ↔ All (Compatible s) es
unfolding session_conflicts
session_conflicts_iff s [] = (λ h. tt, λ h. refl)
session_conflicts_iff s (e ∷ es) = ground (
  arith,
  session_conflicts_iff s es,
  append-eq-nil (overlap_conflicts s e) (session_conflicts s es),
  overlap_conflicts_iff s e,
  Clash-iff s e,
)

when_below_iff : (m n : ℕ) (c : HardConflict) → (when (ltb m n) c ≡ []) ↔ (n ≤ m)
when_below_iff m n c = ground (arith, when-nil (ltb m n) c)

when_different_iff : (x y : String) (c : HardConflict) → (when (not (x == y)) c ≡ []) ↔ (x ≡ y)
when_different_iff x y c = ground (arith, when-nil (not (x == y)) c, string_eq.beq_iff x y)

room_conflicts_iff :
    (casefold : String → String) (s : ScheduledSession) (r : Option RoomSpecification)
    → (room_conflicts casefold s r ≡ []) ↔ RoomFits casefold s r
unfolding room_conflicts
room_conflicts_iff casefold s none = ground arith
room_conflicts_iff casefold s (some r) =
    both-nil (when_below_iff r.capacity s.expected_attendance _)
      (when_different_iff (casefold r.room_type) (casefold s.required_room_type) _)

pub foreign_iff :
    (s : ScheduledSession) (es : List ScheduledSession)
    → (any (λ e. not (e.organization_id == s.organization_id)) es ≡ false)
      ↔ All (λ e. e.organization_id ≡ s.organization_id) es
foreign_iff s [] = (λ h. tt, λ h. refl)
foreign_iff s (e ∷ es) = ground (arith, foreign_iff s es)

-- Two guards and an answer.
guarded_iff :
    (p q : Bool) (e : AppError) (xs : List HardConflict)
    → ((do raise_if p e; raise_if q e; ok xs) ≡ ok []) ↔ ((p ≡ false) × ((q ≡ false) × (xs ≡ [])))
guarded_iff p q e xs = ground arith

same_iff : (x y : Uuid) → (not (x == y) ≡ false) ↔ (x ≡ y)
same_iff x y = ground arith

calendar_iff :
    (windows os : List TimeWindow) (c : HardConflict)
    → (when (is_uncovered windows os) c ≡ []) ↔ Covered windows os
calendar_iff windows os c =
    let nil = when-nil (is_uncovered windows os) c in
    let covered = is_uncovered_iff windows os in
    (λ h. covered.0 (nil.0 h), λ h. nil.1 (covered.1 h))

module _ (casefold : String → String) (s : ScheduledSession) (existing : List ScheduledSession)
    (context : ConstraintContext) where
  found_iff : (conflicts_found casefold s existing context ≡ []) ↔ (
      RoomFits casefold s (room context s.room_id)
      × (Covered context.academic_calendar_windows (occurrences s)
          × (All (λ t. Covered (teacher_windows context t) (occurrences s)) s.teacher_ids
              × All (Compatible s) existing)))
  unfolding conflicts_found
  found_iff = both-nil (room_conflicts_iff casefold s (room context s.room_id)) (
      both-nil (calendar_iff context.academic_calendar_windows (occurrences s) _) (
        both-nil (teacher_conflicts_iff s context s.teacher_ids)
          (session_conflicts_iff s existing)))

  -- The detector answers with no conflict exactly when the session is feasible.
  pub detect_hard_conflicts_iff :
      (detect_hard_conflicts casefold s existing context ≡ ok [])
      ↔ Feasible casefold s existing context
  unfolding detect_hard_conflicts
  detect_hard_conflicts_iff =
      let guards =
        guarded_iff (not (s.organization_id == context.organization_id))
          (any (λ e. not (e.organization_id == s.organization_id)) existing) scheduling_rule
          (conflicts_found casefold s existing context) in
      let foreign = foreign_iff s existing in
      let same = same_iff s.organization_id context.organization_id in
      (
        λ h.
            let (p, rest) = guards.0 h in
            let (fits, others) = found_iff.0 rest.1 in
            record {
              tenant = same.0 p;
              tenants = foreign.0 rest.0;
              fits = fits;
              in_calendar = others.0;
              staffed = others.1.0;
              apart = others.1.1;
            },
        λ f. guards.1 (
          same.1 f.tenant,
          (foreign.1 f.tenants, found_iff.1 (f.fits, (f.in_calendar, (f.staffed, f.apart)))),
        ),
      )
