-- ===== src/Scheduling/Returns.antt =====
-- When `generate` of backend/src/scheduling/application/generator.py returns.
pub mod Whole
use mathlib.Core.Path.{subst}
use mathlib.Core.Path.{ap₂}
use onwlms.Prelude.{
  All, Bool, List, String, [], any, ap, arith, false, if◌then◌else◌, inl, inr, is_unique, map,
  nat_eq, not, pair_eq, refl, string_eq, sym, true, ℕ, ◌++◌, ◌==◌, ◌∙◌, ◌∷◌, ◌≡◌,
}
use onwlms.Prelude.Quantifiers.{All-mono, Member, Member-sort}
use onwlms.Core.{Result, err, ok, ◌>>=◌}
use onwlms.Core.Time.{before, shift}
use onwlms.Scheduling.Attempts.{check_session-same}
use onwlms.Scheduling.Conflicts.{conflicts_found, detect_hard_conflicts}
use onwlms.Scheduling.Context.{ConstraintContext, RoomSpecification}
use onwlms.Scheduling.Feasible.{foreign_iff}
use onwlms.Scheduling.Generation.{
  ActivityRequest, CandidateSlot, ScheduleGenerationRequest, check_activity, check_request,
  check_slot,
}
use onwlms.Scheduling.Generator.{
  Placed, Texts, attempt_in, attempts_in_rooms, candidate_attempts, candidate_of, place_activity,
  slot_order,
}
use onwlms.Scheduling.Generator.Generate.{Draft, after_placement, ordered_rooms, ordered_slots}
use onwlms.Scheduling.Placing.{IsAnswer}
use onwlms.Scheduling.Sessions.{ScheduledSession, check_session}

pub record IsAnswerable (request : ScheduleGenerationRequest) : Type 0 where
  pub checked : check_request request ≡ ok request
  pub activities :
      (a : ActivityRequest)
      → Member a request.activities
      → (check_activity a ≡ ok a)
        × (is_unique a.teacher_ids ≡ true)
        × (is_unique a.group_ids ≡ true)
  pub slots : (s : CandidateSlot) → Member s request.candidate_slots → check_slot s ≡ ok s
  pub unique : is_unique (map (λ s. s.id) request.existing_sessions) ≡ true

abbrev pub Returns : {A : Type 0} → Result A → Type 0
Returns {A} r = (a : A) × (r ≡ ok a)

pub bind-Returns :
    {A B : Type 0} (r : Result A) (f : A → Result B)
    → Returns r
    → ((a : A) → r ≡ ok a → Returns (f a))
    → Returns (r >>= f)
bind-Returns (ok a) f (b, e) k = k a refl
bind-Returns (err x) f (b, e) k = cc

pub bind-ok :
    {A B : Type 0} (r : Result A) (f : A → Result B) {a : A} {b : B}
    → r ≡ ok a
    → f a ≡ ok b
    → (r >>= f) ≡ ok b
bind-ok r f e e' = ap (λ r. r >>= f) e ∙ e'

pub detect-Returns :
    (casefold : String → String) (s : ScheduledSession) (es : List ScheduledSession)
    (context : ConstraintContext)
    → s.organization_id ≡ context.organization_id
    → All (λ e. e.organization_id ≡ s.organization_id) es
    → Returns (detect_hard_conflicts casefold s es context)
unfolding detect_hard_conflicts
detect-Returns casefold s es context tenant tenants =
    (conflicts_found casefold s es context, ground (arith, tenant, (foreign_iff s es).1 tenants))

module _ (texts : Texts) (request : ScheduleGenerationRequest) where
  candidate-Returns :
      (a : ActivityRequest) (ordinal : ℕ) (slot : CandidateSlot) (r : RoomSpecification)
      → check_activity a ≡ ok a
      → is_unique a.teacher_ids ≡ true
      → is_unique a.group_ids ≡ true
      → check_slot slot ≡ ok slot
      → Returns (check_session (candidate_of texts request a ordinal slot r))
  unfolding check_session check_activity check_slot
  candidate-Returns a ordinal slot r c u v d =
      (candidate_of texts request a ordinal slot r, ground (arith, c, u, v, d))

  abbrev pub Home : List ScheduledSession → Type 0
  Home = All (λ s. s.organization_id ≡ request.constraints.organization_id)

  pub guards :
      check_request request ≡ ok request
      → (request.organization_id ≡ request.constraints.organization_id)
        × (any (λ s. not (s.organization_id == request.organization_id)) request.existing_sessions
            ≡ false)
  unfolding check_request
  guards h = (ground (arith, h), ground (arith, h))

  pub snoc-Home :
      (ps : List ScheduledSession) (s : ScheduledSession)
      → Home ps
      → s.organization_id ≡ request.constraints.organization_id
      → Home (ps ++ s ∷ [])
  snoc-Home [] s h own = (own, tt)
  snoc-Home (p ∷ ps) s (here, h) own = (here, snoc-Home ps s h own)

  module _ (fit : IsAnswerable request) where
    pub home : request.organization_id ≡ request.constraints.organization_id
    home = (guards fit.checked).0

    module _ (a : ActivityRequest) (known : Member a request.activities) (ordinal : ℕ)
        (proposed : List ScheduledSession) (at_home : Home proposed) where
      attempt-Returns :
          (slot : CandidateSlot) (r : RoomSpecification)
          → Member slot request.candidate_slots
          → Returns (attempt_in texts request a ordinal proposed slot r)
      unfolding attempt_in
      attempt-Returns slot r m =
          let (c, u, v) = fit.activities a known in
          bind-Returns (check_session (candidate_of texts request a ordinal slot r)) _
            (candidate-Returns a ordinal slot r c u v (fit.slots slot m))
            λ s made.
              let own : s.organization_id ≡ request.constraints.organization_id =
                ap (λ s. s.organization_id)
                  (check_session-same (candidate_of texts request a ordinal slot r) s made)
                ∙ home in
              bind-Returns (detect_hard_conflicts texts.casefold s proposed request.constraints) _
                (detect-Returns texts.casefold s proposed request.constraints own
                  (All-mono (λ e there. there ∙ sym own) proposed at_home))
                λ cs _. (_, refl)

      rooms-Returns :
          (slot : CandidateSlot) (rooms : List RoomSpecification)
          → Member slot request.candidate_slots
          → Returns (attempts_in_rooms texts request a ordinal proposed slot rooms)
      unfolding attempts_in_rooms
      rooms-Returns slot [] m = ([], refl)
      rooms-Returns slot (r ∷ rooms) m =
          bind-Returns (attempt_in texts request a ordinal proposed slot r) _
            (attempt-Returns slot r m)
            λ first _.
              bind-Returns (attempts_in_rooms texts request a ordinal proposed slot rooms) _
                (rooms-Returns slot rooms m) λ rest _. (_, refl)

      fitting-Returns :
          (over : Bool) (slot : CandidateSlot) (rooms : List RoomSpecification)
          → Member slot request.candidate_slots
          → Returns (
              if over then ok [] else attempts_in_rooms texts request a ordinal proposed slot rooms)
      fitting-Returns true slot rooms m = ([], refl)
      fitting-Returns false slot rooms m = rooms-Returns slot rooms m

      attempts-Returns :
          (slots : List CandidateSlot) (rooms : List RoomSpecification)
          → ((slot : CandidateSlot) → Member slot slots → Member slot request.candidate_slots)
          → Returns (candidate_attempts texts request a ordinal proposed slots rooms)
      unfolding candidate_attempts
      attempts-Returns [] rooms sub = ([], refl)
      attempts-Returns (slot ∷ slots) rooms sub =
          bind-Returns
            (if before slot.ends_at (shift slot.starts_at a.duration)
              then ok []
              else attempts_in_rooms texts request a ordinal proposed slot rooms)
            _ (fitting-Returns _ slot rooms (sub slot (inl refl)))
            λ here _.
              bind-Returns (candidate_attempts texts request a ordinal proposed slots rooms) _
                (attempts-Returns slots rooms (λ s m. sub s (inr m))) λ later _. (_, refl)

      pub all_attempts-Returns : Returns (
          candidate_attempts texts request a ordinal proposed
            (ordered_slots texts request)
            (ordered_rooms texts request))
      all_attempts-Returns =
          attempts-Returns (ordered_slots texts request) (ordered_rooms texts request)
            (λ s m. (Member-sort slot_order s request.candidate_slots).0 m)

      pub place_activity-Returns : Returns (
          place_activity texts request a ordinal proposed
            (ordered_slots texts request)
            (ordered_rooms texts request))
      unfolding place_activity
      place_activity-Returns =
          bind-Returns
            (candidate_attempts texts request a ordinal proposed (ordered_slots texts request)
              (ordered_rooms texts request))
            _ all_attempts-Returns λ attempts _. (_, refl)

      pub placed-Home :
          (outcome : Placed) (p : Draft)
          → p.proposed ≡ proposed
          → IsAnswer texts request a ordinal proposed
              (ordered_slots texts request)
              (ordered_rooms texts request)
              outcome
          → Home (after_placement texts request a outcome p).proposed
      placed-Home (Placed.placed s) p e (k, fits, least) =
          snoc-Home p.proposed s (subst Home (sym e) at_home) fits.tenant
      placed-Home (Placed.blocked conflicts) p e none_fits = subst Home (sym e) at_home
