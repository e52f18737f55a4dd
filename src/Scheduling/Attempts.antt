-- ===== src/Scheduling/Attempts.antt =====
-- What `_candidate_attempts` of backend/src/scheduling/application/generator.py enumerates.
use mathlib.Core.Path.{subst}
use onwlms.Prelude.{
  Bool-cases, List, [], ap, arith, false, if◌then◌else◌, inl, inr, nat_eq, pair_eq, refl, string_eq,
  sym, ℕ, ◌++◌, ◌∙◌, ◌∷◌, ◌≡◌,
}
use onwlms.Prelude.Quantifiers.{Member, Member-append}
use onwlms.Core.{>>=-eq-ok, ok}
use onwlms.Core.Time.{before, shift}
use onwlms.Scheduling.Conflicts.{detect_hard_conflicts}
use onwlms.Scheduling.Context.{RoomSpecification}
use onwlms.Scheduling.Generation.{ActivityRequest, CandidateSlot, ScheduleGenerationRequest}
use onwlms.Scheduling.Generator.{
  Attempt, Texts, attempt_in, attempts_in_rooms, candidate_attempts, candidate_of,
}
use onwlms.Scheduling.Sessions.{ScheduledSession, check_session}

pub check_session-same : (s t : ScheduledSession) → check_session s ≡ ok t → t ≡ s
unfolding check_session
check_session-same s t h = ground (arith, h)

module _ (texts : Texts) (request : ScheduleGenerationRequest) (activity : ActivityRequest)
    (ordinal : ℕ) (proposed : List ScheduledSession) where
  abbrev pub candidate_at : CandidateSlot → RoomSpecification → ScheduledSession
  candidate_at = candidate_of texts request activity ordinal

  -- The activity ends inside the slot.
  abbrev pub Ends : CandidateSlot → Type 0
  Ends slot = before slot.ends_at (shift slot.starts_at activity.duration) ≡ false

  -- What the loops find for a slot and a room.
  pub record Tried (slot : CandidateSlot) (r : RoomSpecification) (a : Attempt) : Type 0 where
    pub same : a.candidate ≡ candidate_at slot r
    pub found :
        detect_hard_conflicts texts.casefold (candidate_at slot r) proposed request.constraints
        ≡ ok a.conflicts

  attempt_in-Tried :
      (slot : CandidateSlot) (r : RoomSpecification) (a : Attempt)
      → attempt_in texts request activity ordinal proposed slot r ≡ ok a
      → Tried slot r a
  unfolding attempt_in
  attempt_in-Tried slot r a h =
      let (c, made, h') = >>=-eq-ok (check_session (candidate_at slot r)) _ h in
      let (conflicts, found, e) =
        >>=-eq-ok (detect_hard_conflicts texts.casefold c proposed request.constraints) _ h' in
      let same = check_session-same (candidate_at slot r) c made in
      let built : record { slot = slot; room = r; candidate = c; conflicts = conflicts } ≡ a = cc in
      subst (Tried slot r) built (record {
        same = same;
        found =
            ap (λ s. detect_hard_conflicts texts.casefold s proposed request.constraints) (sym same)
            ∙ found;
      })

  abbrev RoomsCover : CandidateSlot → List RoomSpecification → List Attempt → Type 0
  RoomsCover slot rooms attempts =
      ((r : RoomSpecification)
        → Member r rooms
        → (a : Attempt) × Member a attempts × Tried slot r a)
      × ((a : Attempt)
          → Member a attempts
          → (r : RoomSpecification) × Member r rooms × Tried slot r a)

  rooms-Covers :
      (slot : CandidateSlot) (rooms : List RoomSpecification) (attempts : List Attempt)
      → attempts_in_rooms texts request activity ordinal proposed slot rooms ≡ ok attempts
      → RoomsCover slot rooms attempts
  unfolding attempts_in_rooms
  rooms-Covers slot [] [] h = (λ r m. elim m [ ], λ a m. elim m [ ])
  rooms-Covers slot [] (a ∷ as') h = absurd (ground arith)
  rooms-Covers slot (r ∷ rooms) attempts h =
      let (a, one, h') =
        >>=-eq-ok (attempt_in texts request activity ordinal proposed slot r) _ h in
      let (rest, others, e) =
        >>=-eq-ok (attempts_in_rooms texts request activity ordinal proposed slot rooms) _ h' in
      let (each, only) = rooms-Covers slot rooms rest others in
      let built : a ∷ rest ≡ attempts = cc in
      let first = attempt_in-Tried slot r a one in
      subst (RoomsCover slot (r ∷ rooms)) built (
        λ q m. elim m [
          | inl here ↦ (a, inl refl, subst (λ q. Tried slot q a) here first)
          | inr m' ↦ let (b, n, tried) = each q m' in (b, inr n, tried)
        ],
        λ b m. elim m [
          | inl here ↦ (r, inl refl, subst (Tried slot r) here first)
          | inr m' ↦ let (q, n, tried) = only b m' in (q, inr n, tried)
        ],
      )

  -- The attempts answer the pairs of a slot and a room, each of them.
  pub record Covers (slots : List CandidateSlot) (rooms : List RoomSpecification)
      (attempts : List Attempt) : Type 0 where
    pub each :
        (slot : CandidateSlot) (r : RoomSpecification)
        → Member slot slots
        → Member r rooms
        → Ends slot
        → (a : Attempt) × Member a attempts × Tried slot r a
    pub only :
        (a : Attempt)
        → Member a attempts
        → (slot : CandidateSlot) × (r : RoomSpecification) × Member slot slots
          × Member r rooms
          × Ends slot
          × Tried slot r a

  pub attempts-Covers :
      (slots : List CandidateSlot) (rooms : List RoomSpecification) (attempts : List Attempt)
      → candidate_attempts texts request activity ordinal proposed slots rooms ≡ ok attempts
      → Covers slots rooms attempts
  unfolding candidate_attempts
  attempts-Covers [] rooms [] h = record { each = λ slot r m. elim m [ ]; only = λ a m. elim m [ ] }
  attempts-Covers [] rooms (a ∷ as') h = absurd (ground arith)
  attempts-Covers (slot ∷ slots) rooms attempts h =
      elim (Bool-cases (before slot.ends_at (shift slot.starts_at activity.duration))) [
        | inl over ↦
            let c = attempts-Covers slots rooms attempts (ground (arith, h, over)) in
            record {
              each = λ s r m n ends. elim m [
                | inl here ↦ absurd (ground (arith, over, subst Ends (sym here) ends))
                | inr m' ↦ c.each s r m' n ends
              ];
              only = λ a m.
                  let (s, r, k, n, ends, tried) = c.only a m in (s, r, inr k, n, ends, tried);
            }
        | inr ends ↦
            let (here, found, h') =
              >>=-eq-ok
                (if before slot.ends_at (shift slot.starts_at activity.duration)
                  then ok []
                  else attempts_in_rooms texts request activity ordinal proposed slot rooms)
                _ h in
            let (later, others, e) =
              >>=-eq-ok (candidate_attempts texts request activity ordinal proposed slots rooms) _
                h' in
            let c = attempts-Covers slots rooms later others in
            let (each, only) = rooms-Covers slot rooms here (ground (arith, found, ends)) in
            let built : here ++ later ≡ attempts = cc in
            subst (Covers (slot ∷ slots) rooms) built (record {
              each = λ s r m n ends'. elim m [
                | inl same ↦
                    let (a, k, tried) = each r n in
                    (a, (Member-append a here later).1 (inl k), subst (λ s. Tried s r a) same tried)
                | inr m' ↦
                    let (a, k, tried) = c.each s r m' n ends' in
                    (a, (Member-append a here later).1 (inr k), tried)
              ];
              only = λ a m. elim ((Member-append a here later).0 m) [
                | inl k ↦ let (r, n, tried) = only a k in (slot, r, inl refl, n, ends, tried)
                | inr k ↦
                    let (s, r, n, q, fits, tried) = c.only a k in (s, r, inr n, q, fits, tried)
              ];
            })
      ]
