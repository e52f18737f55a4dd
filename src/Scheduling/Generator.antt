-- ===== src/Scheduling/Generator.antt =====
-- `DeterministicHeuristicSchedulingGenerator` of backend/src/scheduling/application/generator.py.
-- `str` of a UUID and of a number, and `uuid5` in the URL namespace, are the fields of `Texts`.
pub mod Generate
use onwlms.Prelude.{
  Bool, List, String, [], false, flat_map, if◌then◌else◌, leb, ltb, nat_eq, none, not, pair_eq,
  sort, string_eq, ℕ, ◌&&◌, ◌++◌, ◌+◌, ◌==◌, ◌||◌, ◌∷◌,
}
use onwlms.Prelude.Int.{beq_ℤ, ltb_ℤ, sub_ℕ, ℤ}
use onwlms.Core.{Result, Uuid, ok, ◌>>=◌, ◌>>◌}
use onwlms.Core.Text.{◌+s◌}
use onwlms.Core.Time.{DateTime, before, same_time, shift}
use onwlms.Scheduling.Conflicts.{HardConflict, detect_hard_conflicts}
use onwlms.Scheduling.Context.{RoomSpecification}
use onwlms.Scheduling.Generation.{ActivityRequest, CandidateSlot, ScheduleGenerationRequest}
use onwlms.Scheduling.Sessions.{ScheduledSession, check_session}
use onwlms.Scheduling.Soft.{SoftConstraintViolation}
use onwlms.Scheduling.Soft.Detect.{detect_soft_constraint_violations}

pub record Texts : Type 0 where
  pub casefold : String → String
  pub str_uuid : Uuid → String
  pub str_int : ℕ → String
  pub uuid5_url : String → Uuid

-- What `_place_activity` answers: a session, or none and the conflicts.
pub data Placed : Type 0 where
  placed : ScheduledSession → Placed
  blocked : List HardConflict → Placed

-- `_slot_order`, `_session_order` and the other keys compare two times and then an identifier.
abbrev pub order_by : DateTime → DateTime → Uuid → DateTime → DateTime → Uuid → Bool
order_by starts ends id starts' ends' id' =
    before starts starts'
    || (same_time starts starts' && (before ends ends' || (same_time ends ends' && leb id id')))

abbrev pub session_order : ScheduledSession → ScheduledSession → Bool
session_order s t = order_by s.starts_at s.ends_at s.id t.starts_at t.ends_at t.id

abbrev pub slot_order : CandidateSlot → CandidateSlot → Bool
slot_order s t = order_by s.starts_at s.ends_at s.id t.starts_at t.ends_at t.id

-- `_soft_penalty`
abbrev pub total_penalty : List SoftConstraintViolation → ℕ
total_penalty [] = 0
total_penalty (v ∷ vs) = v.penalty + total_penalty vs

unfoldable pub soft_penalty : List ScheduledSession → ScheduleGenerationRequest → ℕ
soft_penalty sessions request =
    total_penalty (detect_soft_constraint_violations (sort session_order sessions) request.policy)

-- One tuple of `_candidate_attempts`.
pub record Attempt : Type 0 where
  pub slot : CandidateSlot
  pub room : RoomSpecification
  pub candidate : ScheduledSession
  pub conflicts : List HardConflict

-- A tuple of `feasible`: the incremental penalty, and the key and the candidate of an attempt.
pub record Placement : Type 0 where
  pub penalty : ℤ
  pub attempt : Attempt

-- `(*_slot_order(slot), str(room.room_id), str(candidate.id))` of the one is below the other's.
abbrev comes_before : Attempt → Attempt → Bool
comes_before a b =
    not (slot_order b.slot a.slot)
    || (slot_order a.slot b.slot
        && (ltb a.room.room_id b.room.room_id
            || (a.room.room_id == b.room.room_id && ltb a.candidate.id b.candidate.id)))

-- `(item[0], item[1])` of the one is below the other's.
abbrev pub is_better : Placement → Placement → Bool
is_better p q =
    ltb_ℤ p.penalty q.penalty || (beq_ℤ p.penalty q.penalty && comes_before p.attempt q.attempt)

-- `min(feasible, key=...)`: the first of the least.
unfoldable pub best : Placement → List Placement → Placement
best p [] = p
best p (q ∷ qs) = best (if is_better q p then q else p) qs

module _ (texts : Texts) where
  -- `_proposal_id`
  abbrev pub proposal_id : Uuid → Uuid → ℕ → Uuid → Uuid → Uuid
  proposal_id organization_id activity_id ordinal slot_id room_id = texts.uuid5_url (
      texts.str_uuid organization_id
      +s ":"
      +s texts.str_uuid activity_id
      +s ":"
      +s texts.str_int ordinal
      +s ":"
      +s texts.str_uuid slot_id
      +s ":"
      +s texts.str_uuid room_id)

  abbrev pub candidate_of :
      ScheduleGenerationRequest
      → ActivityRequest
      → ℕ
      → CandidateSlot
      → RoomSpecification
      → ScheduledSession
  candidate_of request activity ordinal slot r = record {
    id = proposal_id request.organization_id activity.id ordinal slot.id r.room_id;
    organization_id = request.organization_id;
    activity_id = activity.id;
    course_offering_id = activity.course_offering_id;
    room_id = r.room_id;
    teacher_ids = activity.teacher_ids;
    group_ids = activity.group_ids;
    required_group_ids = activity.required_group_ids;
    starts_at = slot.starts_at;
    ends_at = shift slot.starts_at activity.duration;
    activity_type = activity.activity_type;
    required_room_type = activity.required_room_type;
    expected_attendance = activity.expected_attendance;
    recurrence = none;
    locked = false;
    version = 0;
  }

  module _ (request : ScheduleGenerationRequest) (activity : ActivityRequest) (ordinal : ℕ)
      (proposed : List ScheduledSession) where
    -- The body of the inner loop of `_candidate_attempts`.
    unfoldable pub attempt_in : CandidateSlot → RoomSpecification → Result Attempt
    attempt_in slot r = do
      candidate ← check_session (candidate_of request activity ordinal slot r)
      conflicts ← detect_hard_conflicts texts.casefold candidate proposed request.constraints
      ok (record { slot = slot; room = r; candidate = candidate; conflicts = conflicts })

    -- The inner loop, over the rooms.
    unfoldable pub attempts_in_rooms :
        CandidateSlot → List RoomSpecification → Result (List Attempt)
    attempts_in_rooms slot [] = ok []
    attempts_in_rooms slot (r ∷ rooms) = do
      first ← attempt_in slot r
      rest ← attempts_in_rooms slot rooms
      ok (first ∷ rest)

    -- `_candidate_attempts`: a slot is skipped if the activity does not end in it.
    unfoldable pub candidate_attempts :
        List CandidateSlot → List RoomSpecification → Result (List Attempt)
    candidate_attempts [] rooms = ok []
    candidate_attempts (slot ∷ slots) rooms = do
      here ←
          if before slot.ends_at (shift slot.starts_at activity.duration)
          then ok []
          else attempts_in_rooms slot rooms
      later ← candidate_attempts slots rooms
      ok (here ++ later)

    -- The loop of `_place_activity`: `feasible`, with the penalties over `baseline`.
    unfoldable pub feasible_of : List Attempt → List Placement
    feasible_of [] = []
    feasible_of (a ∷ rest) =
        let later = feasible_of rest in
        elim a.conflicts [
          | [] ↦
              record {
                penalty =
                    sub_ℕ (soft_penalty (proposed ++ a.candidate ∷ []) request)
                      (soft_penalty proposed request);
                attempt = a;
              }
              ∷ later
          | _ ∷ _ ↦ later
        ]

  -- The end of `_place_activity`: the best candidate, or the conflicts of all.
  abbrev pub choose : List Placement → List Attempt → Placed
  choose [] attempts = Placed.blocked (flat_map (λ a. a.conflicts) attempts)
  choose (p ∷ ps) attempts = Placed.placed (best p ps).attempt.candidate

  unfoldable pub place_activity :
      ScheduleGenerationRequest
      → ActivityRequest
      → ℕ
      → List ScheduledSession
      → List CandidateSlot
      → List RoomSpecification
      → Result Placed
  place_activity request activity ordinal proposed slots rooms = do
    attempts ← candidate_attempts request activity ordinal proposed slots rooms
    ok (choose (feasible_of request activity ordinal proposed attempts) attempts)
