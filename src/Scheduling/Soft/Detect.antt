-- ===== src/Scheduling/Soft/Detect.antt =====
-- `detect_soft_constraint_violations` of backend/src/scheduling/domain/constraints.py.
use onwlms.Prelude.{List, nat_eq, pair_eq, string_eq, ◌++◌}
use onwlms.Scheduling.Sessions.{ScheduledSession}
use onwlms.Scheduling.Soft.{
  SchedulingPolicy, SoftConstraintCode, SoftConstraintViolation, preferred_hours_violations,
}
use onwlms.Scheduling.Soft.Balance.{weekly_balance_violations}
use onwlms.Scheduling.Soft.Timing.{resource_timing_violations}

unfoldable pub detect_soft_constraint_violations :
    List ScheduledSession → SchedulingPolicy → List SoftConstraintViolation
detect_soft_constraint_violations sessions policy =
    preferred_hours_violations policy sessions
    ++ (resource_timing_violations policy SoftConstraintCode.teacher_gap (λ s. s.teacher_ids)
          sessions
        ++ (resource_timing_violations policy SoftConstraintCode.student_gap (λ s. s.group_ids)
              sessions
            ++ weekly_balance_violations policy sessions))
