-- ===== src/Scheduling/Soft.antt =====
-- The policy and the violations of backend/src/scheduling/domain/models.py, and the preferred hours
-- of backend/src/scheduling/domain/constraints.py. A penalty counts millionths.
pub mod Timing
pub mod Balance
pub mod Detect
use onwlms.Prelude.{
  Bool, List, Option, String, [], any, false, leb, nat_eq, none, not, pair_eq, some, string_eq,
  true, ℕ, ◌&&◌, ◌++◌, ◌∷◌,
}
use onwlms.Core.{Result, Uuid, ok, raise_if, scheduling_rule, ◌>>=◌, ◌>>◌}
use onwlms.Scheduling.Sessions.{ScheduledSession, occurrences}
use onwlms.Scheduling.Windows.{DailyWindow, daily_contains}

pub data SoftConstraintCode : Type 0 where
  maximum_consecutive preferred_hours student_gap teacher_gap weekly_balance : SoftConstraintCode

-- The penalty is that of a policy, which has been found positive.
pub record SoftConstraintViolation : Type 0 where
  pub code : SoftConstraintCode
  pub session_ids : List Uuid
  pub resource_id : Option Uuid
  pub penalty : ℕ
  pub explanation : String

-- Neither threshold is negative.
pub record SchedulingPolicy : Type 0 where
  pub maximum_consecutive_sessions : ℕ
  pub consecutive_break_threshold : ℕ
  pub preferred_gap_limit : ℕ
  pub preferred_hours : List DailyWindow
  pub penalty_per_violation : ℕ

unfoldable pub check_policy : SchedulingPolicy → Result SchedulingPolicy
check_policy p = do
  raise_if (leb p.maximum_consecutive_sessions 0) scheduling_rule
  raise_if (leb p.penalty_per_violation 0) scheduling_rule
  ok p

abbrev pub violation_of :
    SchedulingPolicy
    → SoftConstraintCode
    → List Uuid
    → Option Uuid
    → String
    → SoftConstraintViolation
violation_of policy code session_ids resource_id explanation = record {
  code = code;
  session_ids = session_ids;
  resource_id = resource_id;
  penalty = policy.penalty_per_violation;
  explanation = explanation;
}

-- `if test: violations.append(violation)`
abbrev pub flagged : Bool → SoftConstraintViolation → List SoftConstraintViolation
flagged true v = v ∷ []
flagged false v = []

abbrev is_empty : {A : Type 0} → List A → Bool
is_empty [] = true
is_empty (x ∷ xs) = false

-- `any(not any(window.contains(o) for window in hours) for o in session.occurrences())`
abbrev is_outside : List DailyWindow → ScheduledSession → Bool
is_outside hours session =
    any (λ o. not (any (λ w. daily_contains w o) hours)) (occurrences session)

unfoldable pub preferred_hours_violations :
    SchedulingPolicy → List ScheduledSession → List SoftConstraintViolation
preferred_hours_violations policy [] = []
preferred_hours_violations policy (session ∷ rest) =
    flagged (not (is_empty policy.preferred_hours) && is_outside policy.preferred_hours session) (
      violation_of policy SoftConstraintCode.preferred_hours (session.id ∷ []) none
        "Session is outside preferred instructional hours.")
    ++ preferred_hours_violations policy rest

abbrev pub list_or_empty : {A : Type 0} → Option (List A) → List A
list_or_empty none = []
list_or_empty (some xs) = xs
