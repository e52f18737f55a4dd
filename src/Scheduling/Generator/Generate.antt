-- ===== src/Scheduling/Generator/Generate.antt =====
-- `generate` of backend/src/scheduling/application/generator.py.
use onwlms.Prelude.{
  Bool, List, Option, String, [], any, contains, count, false, filter, if◌then◌else◌, leb, length,
  ltb, map, nat_eq, none, pair_eq, some, sort, string_eq, suc, true, zero, ℕ, ◌&&◌, ◌*◌, ◌++◌, ◌+◌,
  ◌-◌, ◌==◌, ◌||◌, ◌∷◌,
}
use onwlms.Core.{Result, Uuid, ok, ◌>>=◌}
use onwlms.Core.Text.{◌+s◌}
use onwlms.Scheduling.Conflicts.{HardConflict, HardConstraintCode, detect_hard_conflicts}
use onwlms.Scheduling.Context.{RoomSpecification}
use onwlms.Scheduling.Generation.{
  ActivityRequest, CandidateSlot, ScheduleGenerationRequest, ScheduleGenerationResult, check_result,
  one_point,
}
use onwlms.Scheduling.Generator.{
  Attempt, Placed, Texts, candidate_attempts, place_activity, session_order, slot_order,
  total_penalty,
}
use onwlms.Scheduling.Sessions.{ScheduledSession}
use onwlms.Scheduling.Soft.Detect.{detect_soft_constraint_violations}

-- The texts of the codes.
abbrev code_value : HardConstraintCode → String
code_value HardConstraintCode.academic_calendar = "academic_calendar"
code_value HardConstraintCode.required_group_overlap = "required_group_overlap"
code_value HardConstraintCode.room_capacity = "room_capacity"
code_value HardConstraintCode.room_overlap = "room_overlap"
code_value HardConstraintCode.room_type = "room_type"
code_value HardConstraintCode.teacher_overlap = "teacher_overlap"
code_value HardConstraintCode.teacher_unavailable = "teacher_unavailable"
code_value HardConstraintCode.unknown_resource = "unknown_resource"
code_value HardConstraintCode.unscheduled_activity = "unscheduled_activity"

abbrev same_resource : Option Uuid → Option Uuid → Bool
same_resource none none = true
same_resource (some a) (some b) = a == b
same_resource _ _ = false

-- Two conflicts have the same facts.
abbrev same_facts : HardConflict → HardConflict → Bool
same_facts c d =
    code_value c.code == code_value d.code
    && same_resource c.resource_id d.resource_id
    && c.explanation == d.explanation

-- `dict.fromkeys(...)`: the first of those with the same facts.
abbrev first_facts : List HardConflict → List HardConflict → List HardConflict
first_facts seen [] = []
first_facts seen (c ∷ cs) =
    let rest = first_facts (c ∷ seen) cs in if any (same_facts c) seen then rest else c ∷ rest

module _ (texts : Texts) where
  abbrev for_resource : Option Uuid → String
  for_resource none = ""
  for_resource (some id) = " for " +s texts.str_uuid id

  abbrev rendered_fact : HardConflict → String
  rendered_fact c = code_value c.code +s for_resource c.resource_id +s ": " +s c.explanation

  -- `"; ".join(...)`
  abbrev joined : HardConflict → List HardConflict → String
  joined c [] = rendered_fact c
  joined c (d ∷ ds) = rendered_fact c +s "; " +s joined d ds

  abbrev observed : List HardConflict → String
  observed [] = ""
  observed (c ∷ cs) = " Observed conflicts: " +s joined c cs

  -- `_blocked_conflict_detail`
  unfoldable pub blocked_conflict_detail : List HardConflict → String
  blocked_conflict_detail conflicts = observed (first_facts [] conflicts)

  abbrev pub unscheduled : ActivityRequest → List HardConflict → HardConflict
  unscheduled activity conflicts = record {
    code = HardConstraintCode.unscheduled_activity;
    session_ids = [];
    resource_id = some activity.id;
    explanation =
        "No candidate slot and room satisfy all hard constraints."
        +s blocked_conflict_detail conflicts;
  }

-- `_locked_activity_count`
unfoldable pub locked_activity_count : ActivityRequest → List ScheduledSession → ℕ
locked_activity_count activity locked = count (λ s. s.activity_id == activity.id) locked

abbrev no_conflicts : Attempt → Bool
no_conflicts a = elim a.conflicts [ [] ↦ true | _ ∷ _ ↦ false ]

-- The lists `proposed` and `unresolved` of `generate`.
pub record Draft : Type 0 where
  pub proposed : List ScheduledSession
  pub unresolved : List HardConflict

abbrev pub activity_order : (ℕ × ActivityRequest) → (ℕ × ActivityRequest) → Bool
activity_order (m, a) (n, b) = ltb m n || (m == n && leb a.id b.id)

-- The snapshot of the versions, sorted by identifier.
abbrev pub snapshot_versions : List ScheduledSession → List (Uuid × ℕ)
snapshot_versions sessions =
    sort (λ (i, v) (j, w). leb i j) (map (λ (s : ScheduledSession). (s.id, s.version)) sessions)

module _ (texts : Texts) (request : ScheduleGenerationRequest) where
  abbrev pub locked_sessions : List ScheduledSession
  locked_sessions =
      sort session_order
        (filter (λ s. contains s.id request.locked_session_ids) request.existing_sessions)

  -- The first loop: each locked session against those before it.
  unfoldable pub locked_conflicts :
      List ScheduledSession → List ScheduledSession → Result (List HardConflict)
  locked_conflicts earlier [] = ok []
  locked_conflicts earlier (locked ∷ rest) = do
    found ← detect_hard_conflicts texts.casefold locked earlier request.constraints
    others ← locked_conflicts (earlier ++ locked ∷ []) rest
    ok (found ++ others)

  abbrev pub ordered_slots : List CandidateSlot
  ordered_slots = sort slot_order request.candidate_slots

  abbrev pub ordered_rooms : List RoomSpecification
  ordered_rooms = sort (λ r q. leb r.room_id q.room_id) request.constraints.rooms

  -- `_feasible_placement_count`
  unfoldable pub feasible_placement_count : ActivityRequest → Result ℕ
  feasible_placement_count activity = do
    attempts ←
        candidate_attempts texts request activity (locked_activity_count activity locked_sessions)
          locked_sessions ordered_slots ordered_rooms
    ok (count no_conflicts attempts)

  -- The keys of `sorted`.
  unfoldable pub ranked : List ActivityRequest → Result (List (ℕ × ActivityRequest))
  ranked [] = ok []
  ranked (activity ∷ rest) = do
    n ← feasible_placement_count activity
    others ← ranked rest
    ok ((n, activity) ∷ others)

  abbrev pub after_placement : ActivityRequest → Placed → Draft → Draft
  after_placement activity (Placed.placed generated) p = record p {
    proposed = p.proposed ++ generated ∷ [];
  }
  after_placement activity (Placed.blocked conflicts) p = record p {
    unresolved = p.unresolved ++ unscheduled texts activity conflicts ∷ [];
  }

  -- The inner loop: so many ordinals, from one on.
  unfoldable pub place_ordinals : ActivityRequest → ℕ → ℕ → Draft → Result Draft
  place_ordinals activity zero ordinal p = ok p
  place_ordinals activity (suc n) ordinal p = do
    outcome ← place_activity texts request activity ordinal p.proposed ordered_slots ordered_rooms
    place_ordinals activity n (ordinal + 1) (after_placement activity outcome p)

  -- `range(already_locked, activity.sessions_required)` has so many members.
  abbrev pub missing : ActivityRequest → ℕ
  missing activity = activity.sessions_required - locked_activity_count activity locked_sessions

  -- The outer loop.
  unfoldable pub place_activities : List (ℕ × ActivityRequest) → Draft → Result Draft
  place_activities [] p = ok p
  place_activities ((n, activity) ∷ rest) p = do
    q ←
        place_ordinals activity (missing activity) (locked_activity_count activity locked_sessions)
          p
    place_activities rest q

  -- The sessions and conflicts that the loops find.
  unfoldable pub place_all : Result Draft
  place_all = do
    conflicts ← locked_conflicts [] locked_sessions
    activities ← ranked request.activities
    place_activities (sort activity_order activities)
        (record { proposed = locked_sessions; unresolved = conflicts })

  -- The end of `generate`; a subtraction stops at zero.
  unfoldable pub scored : Draft → Result ScheduleGenerationResult
  scored p =
      let proposal = sort session_order p.proposed in
      let violations = detect_soft_constraint_violations proposal request.policy in
      check_result (record {
        proposed_sessions = proposal;
        unresolved_hard_conflicts = p.unresolved;
        soft_constraint_violations = violations;
        quality_score =
            100 * one_point - 25 * one_point * length p.unresolved - total_penalty violations;
        explanation =
            "Deterministic heuristic placed "
            +s texts.str_int (length proposal)
            +s " sessions; "
            +s texts.str_int (length p.unresolved)
            +s " hard conflicts remain and "
            +s texts.str_int (length violations)
            +s " preference violations were scored.";
        locked_session_ids = request.locked_session_ids;
        expected_versions = snapshot_versions request.existing_sessions;
      })

  unfoldable pub generate : Result ScheduleGenerationResult
  generate = do p ← place_all; scored p
