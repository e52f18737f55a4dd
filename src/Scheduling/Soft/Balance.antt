-- ===== src/Scheduling/Soft/Balance.antt =====
-- `_weekly_balance_violations` of backend/src/scheduling/domain/constraints.py.
-- `counts`: for a group, the sessions of each weekday
use onwlms.Prelude.{
  Bool, List, Option, [], distinct, flat_map, if◌then◌else◌, leb, length, ltb, map, nat_eq, none,
  pair_eq, some, sort, string_eq, ℕ, ◌++◌, ◌-◌, ◌∷◌,
}
use onwlms.Prelude.Dict.{Dict, insert, lookup, values}
use onwlms.Core.{Uuid}
use onwlms.Core.Time.{iso_weekday}
use onwlms.Scheduling.Sessions.{ScheduledSession, occurrences}
use onwlms.Scheduling.Soft.{
  SchedulingPolicy, SoftConstraintCode, SoftConstraintViolation, flagged, list_or_empty,
  violation_of,
}
use onwlms.Scheduling.Windows.{TimeWindow}

abbrev pub WeekdayCounts : Type 0
WeekdayCounts = Dict Uuid (Dict ℕ (List Uuid))

abbrev weekdays_or_empty : Option (Dict ℕ (List Uuid)) → Dict ℕ (List Uuid)
weekdays_or_empty none = []
weekdays_or_empty (some d) = d

abbrev add_weekday : Uuid → ℕ → List Uuid → WeekdayCounts → WeekdayCounts
add_weekday session_id weekday [] counts = counts
add_weekday session_id weekday (group_id ∷ rest) counts =
    let by_weekday = weekdays_or_empty (lookup group_id counts) in
    let ids = list_or_empty (lookup weekday by_weekday) in
    add_weekday session_id weekday rest
      (insert group_id (insert weekday (ids ++ session_id ∷ []) by_weekday) counts)

abbrev add_weekdays : ScheduledSession → List TimeWindow → WeekdayCounts → WeekdayCounts
add_weekdays session [] counts = counts
add_weekdays session (o ∷ os) counts =
    let weekday = iso_weekday o.starts_at in
    add_weekdays session os (
      if ltb 5 weekday
      then counts
      else add_weekday session.id weekday session.required_group_ids counts)

unfoldable pub count_weekdays : List ScheduledSession → WeekdayCounts → WeekdayCounts
count_weekdays [] counts = counts
count_weekdays (session ∷ rest) counts =
    count_weekdays rest (add_weekdays session (occurrences session) counts)

-- `max` and `min` of a list
abbrev largest : ℕ → List ℕ → ℕ
largest m [] = m
largest m (n ∷ ns) = largest (if ltb m n then n else m) ns

abbrev smallest : ℕ → List ℕ → ℕ
smallest m [] = m
smallest m (n ∷ ns) = smallest (if ltb n m then n else m) ns

abbrev on_weekday : Dict ℕ (List Uuid) → ℕ → ℕ
on_weekday by_weekday weekday = length (list_or_empty (lookup weekday by_weekday))

-- The counts from Monday to Friday differ by more than one.
unfoldable pub is_unbalanced : Dict ℕ (List Uuid) → Bool
is_unbalanced by_weekday =
    let monday = on_weekday by_weekday 1 in
    let others = map (on_weekday by_weekday) (2 ∷ 3 ∷ 4 ∷ 5 ∷ []) in
    ltb 1 (largest monday others - smallest monday others)

-- The loop over the groups.
unfoldable pub balance_violations : SchedulingPolicy → WeekdayCounts → List SoftConstraintViolation
balance_violations policy [] = []
balance_violations policy ((group_id, by_weekday) ∷ rest) =
    flagged (is_unbalanced by_weekday) (
      violation_of policy SoftConstraintCode.weekly_balance
        (sort leb (distinct (flat_map (λ ids. ids) (values by_weekday)))) (some group_id)
        "Required sessions are unevenly distributed by weekday.")
    ++ balance_violations policy rest

-- `_weekly_balance_violations`
abbrev pub weekly_balance_violations :
    SchedulingPolicy → List ScheduledSession → List SoftConstraintViolation
weekly_balance_violations policy sessions = balance_violations policy (count_weekdays sessions [])
