-- ===== src/Scheduling/Soft/Timing.antt =====
-- `_resource_timing_violations` of backend/src/scheduling/domain/constraints.py.
use onwlms.Prelude.{
  Bool, List, Option, [], if◌then◌else◌, length, nat_eq, none, not, pair_eq, some, sort, string_eq,
  ℕ, ◌++◌, ◌+◌, ◌==◌, ◌∷◌,
}
use onwlms.Prelude.Dict.{Dict, insert, lookup}
use onwlms.Prelude.Int.{leb_ℤ, pos}
use onwlms.Core.{Uuid}
use onwlms.Core.Time.{TimeDelta, day_number, not_after, since}
use onwlms.Scheduling.Sessions.{ScheduledSession, occurrences}
use onwlms.Scheduling.Soft.{
  SchedulingPolicy, SoftConstraintCode, SoftConstraintViolation, flagged, list_or_empty,
  violation_of,
}
use onwlms.Scheduling.Windows.{TimeWindow}

abbrev pub Meeting : Type 0
Meeting = ScheduledSession × TimeWindow

-- `grouped`, by resource and day
abbrev pub Grouped : Type 0
Grouped = Dict (Uuid × ℕ) (List Meeting)

abbrev add_meeting : ScheduledSession → TimeWindow → List Uuid → Grouped → Grouped
add_meeting session occurrence [] grouped = grouped
add_meeting session occurrence (resource_id ∷ rest) grouped =
    let key : Uuid × ℕ = (resource_id, day_number occurrence.starts_at) in
    add_meeting session occurrence rest
      (insert key (list_or_empty (lookup key grouped) ++ (session, occurrence) ∷ []) grouped)

abbrev add_occurrences : ScheduledSession → List Uuid → List TimeWindow → Grouped → Grouped
add_occurrences session resources [] grouped = grouped
add_occurrences session resources (o ∷ os) grouped =
    add_occurrences session resources os (add_meeting session o resources grouped)

-- The first loop of `_resource_timing_violations`.
unfoldable pub group_meetings :
    (ScheduledSession → List Uuid) → List ScheduledSession → Grouped → Grouped
group_meetings resource_ids [] grouped = grouped
group_meetings resource_ids (session ∷ rest) grouped =
    group_meetings resource_ids rest
      (add_occurrences session (resource_ids session) (occurrences session) grouped)

-- `gap <= limit`, where `gap` may be negative
abbrev within_gap : TimeDelta → ℕ → Bool
within_gap gap limit = leb_ℤ gap (pos limit)

module _ (policy : SchedulingPolicy) (gap_code : SoftConstraintCode) (resource_id : Uuid) where
  abbrev consecutive_after : List Uuid → Option Meeting → Meeting → List Uuid
  consecutive_after ids none (session, occurrence) = session.id ∷ []
  consecutive_after ids (some (previous, earlier)) (session, occurrence) =
      if within_gap (since occurrence.starts_at earlier.ends_at) policy.consecutive_break_threshold
      then ids ++ session.id ∷ []
      else session.id ∷ []

  abbrev gap_violation : Option Meeting → Meeting → List SoftConstraintViolation
  gap_violation none (session, occurrence) = []
  gap_violation (some (previous, earlier)) (session, occurrence) =
      flagged
        (not (within_gap (since occurrence.starts_at earlier.ends_at) policy.preferred_gap_limit))
        (violation_of policy gap_code (previous.id ∷ session.id ∷ []) (some resource_id)
          "Gap between sessions exceeds the preference.")

  -- The inner loop over the meetings of one resource on one day.
  unfoldable pub timing_violations :
      List Uuid → Option Meeting → List Meeting → List SoftConstraintViolation
  timing_violations ids previous [] = []
  timing_violations ids previous (meeting ∷ rest) =
      let consecutive = consecutive_after ids previous meeting in
      gap_violation previous meeting
      ++ (flagged (length consecutive == policy.maximum_consecutive_sessions + 1) (
            violation_of policy SoftConstraintCode.maximum_consecutive consecutive
              (some resource_id) "Consecutive-session preference was exceeded.")
          ++ timing_violations consecutive (some meeting) rest)

-- The second loop.
unfoldable pub grouped_violations :
    SchedulingPolicy → SoftConstraintCode → Grouped → List SoftConstraintViolation
grouped_violations policy gap_code [] = []
grouped_violations policy gap_code (((resource_id, date), meetings) ∷ rest) =
    timing_violations policy gap_code resource_id [] none
      (sort (λ (m n : Meeting). not_after m.1.starts_at n.1.starts_at) meetings)
    ++ grouped_violations policy gap_code rest

-- `_resource_timing_violations`
abbrev pub resource_timing_violations :
    SchedulingPolicy
    → SoftConstraintCode
    → (ScheduledSession → List Uuid)
    → List ScheduledSession
    → List SoftConstraintViolation
resource_timing_violations policy gap_code resource_ids sessions =
    grouped_violations policy gap_code (group_meetings resource_ids sessions [])
