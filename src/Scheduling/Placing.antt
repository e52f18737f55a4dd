-- ===== src/Scheduling/Placing.antt =====
-- What `_place_activity` of backend/src/scheduling/application/generator.py chooses.
use mathlib.Core.Path.{subst}
use onwlms.Prelude.{
  All, Bool, List, [], ap, arith, false, if◌then◌else◌, inl, inr, nat_eq, pair_eq, refl, string_eq,
  sym, true, ℕ, ◌++◌, ◌∙◌, ◌∷◌, ◌≡◌, ◌≤◌,
}
use onwlms.Prelude.Int.{sub_ℕ, ℤ, ◌≤ℤ◌}
use onwlms.Prelude.Quantifiers.{All_at, Member}
use onwlms.Core.{>>=-eq-ok, Result, ok}
use onwlms.Scheduling.Attempts.{Covers, Ends, attempts-Covers, candidate_at}
use onwlms.Scheduling.Context.{RoomSpecification}
use onwlms.Scheduling.Feasible.{Feasible, detect_hard_conflicts_iff}
use onwlms.Scheduling.Generation.{ActivityRequest, CandidateSlot, ScheduleGenerationRequest}
use onwlms.Scheduling.Generator.{
  Attempt, Placed, Placement, Texts, best, candidate_attempts, choose, feasible_of, is_better,
  place_activity, soft_penalty,
}
use onwlms.Scheduling.Sessions.{ScheduledSession}

-- Costs over one baseline compare like the costs.
cost_below : (p q : ℤ) (a b c : ℕ) → p ≡ sub_ℕ a c → q ≡ sub_ℕ b c → p ≤ℤ q → a ≤ b
cost_below p q a b c e e' h = ground (arith, e, e', h)

pub same_answer : {A : Type 0} {r : Result A} {x y : A} → r ≡ ok x → r ≡ ok y → x ≡ y
same_answer e e' = cc

chosen-Member :
    (b : Bool) (p q x : Placement) (qs : List Placement)
    → Member x ((if b then q else p) ∷ qs)
    → Member x (p ∷ q ∷ qs)
chosen-Member true p q x qs m = inr m
chosen-Member false p q x qs (inl e) = inl e
chosen-Member false p q x qs (inr m) = inr (inr m)

chosen_below :
    (b : Bool) (p q : Placement)
    → is_better q p ≡ b
    → ((if b then q else p).penalty ≤ℤ p.penalty) × ((if b then q else p).penalty ≤ℤ q.penalty)
chosen_below true p q h = ground (arith, h)
chosen_below false p q h = ground (arith, h)

-- The best is one of them, and none has a lower penalty.
best-Member : (p : Placement) (ps : List Placement) → Member (best p ps) (p ∷ ps)
unfolding best
best-Member p [] = inl refl
best-Member p (q ∷ qs) =
    chosen-Member (is_better q p) p q _ qs (best-Member (if is_better q p then q else p) qs)

best_least :
    (p : Placement) (ps : List Placement) → All (λ q. (best p ps).penalty ≤ℤ q.penalty) (p ∷ ps)
unfolding best
best_least p [] = (omega arith, tt)
best_least p (q ∷ qs) =
    let (below, rest) = best_least (if is_better q p then q else p) qs in
    let (f, g) = chosen_below (is_better q p) p q refl in
    (omega (arith, below, f), (omega (arith, below, g), rest))

module _ (texts : Texts) (request : ScheduleGenerationRequest) (activity : ActivityRequest)
    (ordinal : ℕ) (proposed : List ScheduledSession) where
  -- The soft cost of a timetable with one more session.
  abbrev pub cost_with : ScheduledSession → ℕ
  cost_with s = soft_penalty (proposed ++ s ∷ []) request

  -- The placements are the attempts without conflicts.
  feasible_each :
      (a : Attempt) (attempts : List Attempt)
      → Member a attempts
      → a.conflicts ≡ []
      → (p : Placement) × Member p (feasible_of texts request activity ordinal proposed attempts)
        × (p.attempt ≡ a)
  unfolding feasible_of
  feasible_each a [] m h = elim m [ ]
  feasible_each a (b ∷ bs) m h = elim m [
    | inl here ↦ (
      record {
        penalty = sub_ℕ (cost_with b.candidate) (soft_penalty proposed request);
        attempt = b;
      },
      ground (arith, h, ap (λ (c : Attempt). c.conflicts) here),
      here,
    )
    | inr m' ↦ let (p, n, e) = feasible_each a bs m' h in (p, ground (arith, n), e)
  ]

  feasible_only :
      (p : Placement) (attempts : List Attempt)
      → Member p (feasible_of texts request activity ordinal proposed attempts)
      → Member p.attempt attempts
        × (p.attempt.conflicts ≡ [])
        × (p.penalty ≡ sub_ℕ (cost_with p.attempt.candidate) (soft_penalty proposed request))
  unfolding feasible_of
  feasible_only p [] m = elim m [ ]
  feasible_only p (b ∷ bs) m = ground (arith, feasible_only p bs)

  module _ (slots : List CandidateSlot) (rooms : List RoomSpecification) where
    -- A candidate for the activity: a slot in which it ends, and a room.
    pub record Candidate (s : ScheduledSession) : Type 0 where
      pub slot : CandidateSlot
      pub room : RoomSpecification
      pub in_slots : Member slot slots
      pub in_rooms : Member room rooms
      pub ends : Ends texts request activity ordinal proposed slot
      pub same : s ≡ candidate_at texts request activity ordinal proposed slot room

    abbrev pub Fits : ScheduledSession → Type 0
    Fits s = Feasible texts.casefold s proposed request.constraints

    -- A feasible candidate that costs no more than any other, or none if no candidate is feasible.
    abbrev pub IsAnswer : Placed → Type 0
    IsAnswer (Placed.placed s) =
        Candidate s
        × Fits s
        × ((t : ScheduledSession) → Candidate t → Fits t → cost_with s ≤ cost_with t)
    IsAnswer (Placed.blocked conflicts) = (t : ScheduledSession) → Candidate t → Fits t → ⊥

    module _ (attempts : List Attempt)
        (c : Covers texts request activity ordinal proposed slots rooms attempts) where
      -- A feasible candidate is among the placements, with its cost.
      placement_of :
          (t : ScheduledSession)
          → Candidate t
          → Fits t
          → (p : Placement) × Member p
              (feasible_of texts request activity ordinal proposed attempts)
            × (p.attempt.candidate ≡ t)
      placement_of t k f =
          let (a, m, tried) = c.each k.slot k.room k.in_slots k.in_rooms k.ends in
          let free : a.conflicts ≡ [] = same_answer tried.found (
            (detect_hard_conflicts_iff texts.casefold _ proposed request.constraints).1
              (subst Fits k.same f)) in
          let (p, n, e) = feasible_each a attempts m free in
          (p, n, ap (λ b. b.candidate) e ∙ tried.same ∙ sym k.same)

      nothing-Fits :
          feasible_of texts request activity ordinal proposed attempts ≡ []
          → (t : ScheduledSession) → Candidate t
          → Fits t
          → ⊥
      nothing-Fits e t k f = let (p, n, _) = placement_of t k f in subst (Member p) e n

      chosen-IsAnswer :
          (ps : List Placement)
          → feasible_of texts request activity ordinal proposed attempts ≡ ps
          → IsAnswer (choose texts ps attempts)
      chosen-IsAnswer [] e = nothing-Fits e
      chosen-IsAnswer (p ∷ ps) e =
          let q = best p ps in
          let (m, free, cost) =
            feasible_only q attempts (subst (Member q) (sym e) (best-Member p ps)) in
          let (slot, r, m1, m2, ends, tried) = c.only q.attempt m in
          (
            record {
              slot = slot;
              room = r;
              in_slots = m1;
              in_rooms = m2;
              ends = ends;
              same = tried.same;
            },
            subst Fits (sym tried.same) (
                (detect_hard_conflicts_iff texts.casefold _ proposed request.constraints).0
                  (tried.found ∙ ap ok free)),
            λ t k f.
                let (p', n, same) = placement_of t k f in
                let (_, _, cost') = feasible_only p' attempts n in
                let below = All_at _ (p ∷ ps) (best_least p ps) p' (subst (Member p') e n) in
                subst (λ t. cost_with q.attempt.candidate ≤ cost_with t) same
                  (cost_below q.penalty p'.penalty _ _ (soft_penalty proposed request) cost cost'
                    below),
          )

    -- When a placement answers, it is with a feasible candidate of least soft cost, or with none if
    -- no slot and room give a feasible one.
    pub place_activity-IsAnswer :
        (outcome : Placed)
        → place_activity texts request activity ordinal proposed slots rooms ≡ ok outcome
        → IsAnswer outcome
    unfolding place_activity
    place_activity-IsAnswer outcome h =
        let (attempts, got, e) =
          >>=-eq-ok (candidate_attempts texts request activity ordinal proposed slots rooms) _ h in
        let c = attempts-Covers texts request activity ordinal proposed slots rooms attempts got in
        let built : choose texts (feasible_of texts request activity ordinal proposed attempts)
              attempts
            ≡ outcome =
          cc in
        subst IsAnswer built (chosen-IsAnswer attempts c _ refl)
