-- ===== src/Scheduling/Timetabled/Served.antt =====
-- Locks, generated timetables and sequences of calls of `TimetableService` of
-- backend/src/scheduling/application/service.py.
use mathlib.Core.Path.{subst, subst₂}
use onwlms.Prelude.{
  Bool, List, Option, [], arith, nat_eq, pair_eq, refl, some, string_eq, sym, ℕ, ◌+◌, ◌∷◌, ◌≡◌,
}
use onwlms.Prelude.Dict.{Dict, lookup}
use onwlms.Core.{Result, TenantActorContext, Uuid, err, not_found, ok, or_raise}
use onwlms.Core.Exec.Relates.{
  Relates-ask-bind, Relates-ask-known, Relates-gets-bind, Relates-lift, Relates-lift-bind,
  Relates-pure, Relates-require-bind,
}
use onwlms.Core.Exec.Views.{bind-Spares, Spares-bind, write-Relates}
use onwlms.Core.Time.{DateTime}
use onwlms.Scheduling.Attempts.{check_session-same}
use onwlms.Scheduling.Booked.{IsBooked, KeepsBooked, relocked-KeepsBooked}
use onwlms.Scheduling.Context.{ConstraintContext}
use onwlms.Scheduling.Generation.{ActivityRequest, CandidateSlot, ScheduleGenerationResult}
use onwlms.Scheduling.Repository.{SessionTable, get_session, replaced_table, save_session}
use onwlms.Scheduling.Service.{
  SchedulingPorts, SchedulingWorld, require_activity_references, require_session_references,
}
use onwlms.Scheduling.Service.Apply.{
  apply_generation, apply_proposal, dict_of, replace_generated_schedule, replaced, service_generate,
}
use onwlms.Scheduling.Service.Manage.{create_session, move_session, set_session_lock, store_lock}
use onwlms.Scheduling.Sessions.{ScheduledSession, check_session}
use onwlms.Scheduling.Soft.{SchedulingPolicy}
use onwlms.Scheduling.Swapped.{replaced-KeepsBooked}
use onwlms.Scheduling.Timetabled.{
  KeepsBooked-refl, KeepsTimetable, OnSessions, announced, create_session-Keeps, move_session-Keeps,
  mutation-IsCalm, sessions_of, still, told-IsCalm,
}

module _ (ports : SchedulingPorts) (context : TenantActorContext) where
  relocked_at :
      (id : Uuid) (current updated : ScheduledSession) (locked : Bool) (t t' : SessionTable)
      → check_session (record current { locked = locked; version = current.version + 1 })
        ≡ ok updated
      → save_session updated (some current.version) t ≡ ok t'
      → or_raise (get_session context.organization_id id t) not_found ≡ ok current
      → KeepsBooked t t'
  unfolding get_session
  relocked_at id current updated locked t t' made written got b =
      let at : lookup (context.organization_id, id) t ≡ some current = ground (arith, got) in
      let (o, i) = b.keyed context.organization_id id current at in
      let same = check_session-same _ updated made in
      relocked-KeepsBooked current locked (current.version + 1) (some current.version) t t'
        (subst₂ (λ o i. lookup (o, i) t ≡ some current) (sym o) (sym i) at)
        (subst (λ s. save_session s (some current.version) t ≡ ok t') same written) b

  set_session_lock-Keeps :
      (id : Uuid) (locked : Bool) (version : Option ℕ)
      → KeepsTimetable (set_session_lock ports context id locked version)
  unfolding set_session_lock store_lock
  set_session_lock-Keeps id locked version = Relates-require-bind still _ _ _ λ _.
      Relates-ask-known {R = OnSessions KeepsBooked} still _ _ λ current.
        Relates-require-bind (λ w got b. b) _ _ _
          λ _.
            Relates-lift-bind (λ w got b. b) _ _
              λ updated made.
                announced ports context
                  (λ t t'.
                    or_raise (get_session context.organization_id id t) not_found ≡ ok current
                    → KeepsBooked t t')
                  (λ t got b. b) (save_session updated (some current.version)) _ _ updated.id
                  updated
                  (λ t t' written got. relocked_at id current updated locked t t' made written got)

  replaced_source :
      (w w' : SchedulingWorld) (org : Uuid) (r : Result (List ScheduledSession))
      → replaced w org r ≡ ok w'
      → (ps : List ScheduledSession) × (r ≡ ok ps)
        × (replaced_table org ps w.sessions ≡ w'.sessions)
  replaced_source w w' org (ok ps) h = (ps, refl, ground (arith, h))
  replaced_source w w' org (err e) h = absurd (ground (arith, h))

  replace_generated_schedule-Keeps :
      (proposed : List ScheduledSession) (locked : List Uuid) (expected : Dict Uuid ℕ)
      (constraints : ConstraintContext)
      → KeepsTimetable
          (replace_generated_schedule ports context proposed locked expected constraints)
  unfolding replace_generated_schedule
  replace_generated_schedule-Keeps proposed locked expected constraints =
      Relates-ask-bind still _ _ λ persisted.
        bind-Spares sessions_of KeepsBooked KeepsBooked-refl _ _
          (write-Relates sessions_of KeepsBooked KeepsBooked-refl _ λ w w' h.
            let (ps, prepared, e) = replaced_source w w' context.organization_id _ h in
            subst (KeepsBooked w.sessions) e (
              replaced-KeepsBooked context.organization_id ports.casefold proposed locked expected
                constraints w.sessions ps prepared))
          (λ _. Relates-pure (λ w. refl) persisted)

  apply_proposal-Keeps :
      (proposed : List ScheduledSession) (locked : List Uuid) (expected : Dict Uuid ℕ)
      → KeepsTimetable (apply_proposal ports context proposed locked expected)
  unfolding apply_proposal require_session_references
  apply_proposal-Keeps proposed locked expected = Relates-require-bind still _ _ _ λ _.
      Relates-require-bind still _ _ _ λ _. Relates-require-bind still _ _ _ λ _.
        Relates-require-bind still _ _ _ λ _. Relates-require-bind still _ _ _ λ _.
          Relates-require-bind still _ _ _ λ _. Relates-gets-bind still _ _ λ current.
            Relates-lift-bind still _ _ λ prepared _. Relates-lift-bind still _ _ λ constraints _.
              Relates-lift-bind still _ _ λ conflicts _. Relates-require-bind still _ _ _ λ _.
                Spares-bind sessions_of KeepsBooked KeepsBooked-refl _ _
                  (mutation-IsCalm ports context _ context.organization_id _)
                  λ _.
                    bind-Spares sessions_of KeepsBooked KeepsBooked-refl _ _
                      (replace_generated_schedule-Keeps proposed locked expected constraints)
                      (λ persisted. told-IsCalm ports context _ context.organization_id _ persisted)

  apply_generation-Keeps :
      (result : ScheduleGenerationResult) → KeepsTimetable (apply_generation ports context result)
  unfolding apply_generation
  apply_generation-Keeps result = Relates-require-bind still _ _ _ λ _.
      Relates-require-bind still _ _ _ λ _. Relates-require-bind still _ _ _ λ _.
        bind-Spares sessions_of KeepsBooked KeepsBooked-refl _ _
          (apply_proposal-Keeps result.proposed_sessions result.locked_session_ids
            (dict_of ports context result.expected_versions []))
          (λ _. Relates-pure (λ w. refl) tt)

  service_generate-Keeps :
      (activities : List ActivityRequest) (slots : List CandidateSlot) (locked : List Uuid)
      (policy : SchedulingPolicy)
      → KeepsTimetable (service_generate ports context activities slots locked policy)
  unfolding service_generate require_activity_references
  service_generate-Keeps activities slots locked policy = Relates-require-bind still _ _ _ λ _.
      Relates-require-bind still _ _ _ λ _. Relates-require-bind still _ _ _ λ _.
        Relates-require-bind still _ _ _ λ _. Relates-require-bind still _ _ _ λ _.
          Relates-gets-bind still _ _ λ existing.
            Relates-lift-bind still _ _
              λ constraints _. Relates-lift-bind still _ _ λ request _. Relates-lift still _

pub data TimetableMethod : Type 0 where
  create : ScheduledSession → TimetableMethod
  move : Uuid → DateTime → DateTime → ℕ → TimetableMethod
  set_lock : Uuid → Bool → Option ℕ → TimetableMethod
  propose :
      List ActivityRequest → List CandidateSlot → List Uuid → SchedulingPolicy → TimetableMethod
  apply_result : ScheduleGenerationResult → TimetableMethod
  apply_sessions : List ScheduledSession → List Uuid → Dict Uuid ℕ → TimetableMethod

-- The world after a call, whether it returns or raises.
unfoldable pub serve_timetable :
    SchedulingPorts → TenantActorContext → TimetableMethod → SchedulingWorld → SchedulingWorld
serve_timetable ports context (TimetableMethod.create s) w = (create_session ports context s w).1
serve_timetable ports context (TimetableMethod.move id starts_at ends_at version) w =
    (move_session ports context id starts_at ends_at version w).1
serve_timetable ports context (TimetableMethod.set_lock id locked version) w =
    (set_session_lock ports context id locked version w).1
serve_timetable ports context (TimetableMethod.propose activities slots locked policy) w =
    (service_generate ports context activities slots locked policy w).1
serve_timetable ports context (TimetableMethod.apply_result result) w =
    (apply_generation ports context result w).1
serve_timetable ports context (TimetableMethod.apply_sessions sessions locked versions) w =
    (apply_proposal ports context sessions locked versions w).1

-- Calls of any actors, one after the other.
unfoldable pub serve_timetables :
    SchedulingPorts
    → List (TenantActorContext × TimetableMethod)
    → SchedulingWorld
    → SchedulingWorld
serve_timetables ports [] w = w
serve_timetables ports ((context, m) ∷ rest) w =
    serve_timetables ports rest (serve_timetable ports context m w)

serve_timetable-KeepsBooked :
    (ports : SchedulingPorts) (context : TenantActorContext) (m : TimetableMethod)
    (w : SchedulingWorld)
    → KeepsBooked w.sessions (serve_timetable ports context m w).sessions
unfolding serve_timetable
serve_timetable-KeepsBooked ports context (TimetableMethod.create s) w =
    (create_session-Keeps ports context s).at w
serve_timetable-KeepsBooked ports context (TimetableMethod.move id starts_at ends_at version) w =
    (move_session-Keeps ports context id starts_at ends_at version).at w
serve_timetable-KeepsBooked ports context (TimetableMethod.set_lock id locked version) w =
    (set_session_lock-Keeps ports context id locked version).at w
serve_timetable-KeepsBooked ports context (TimetableMethod.propose activities slots locked policy)
      w =
    (service_generate-Keeps ports context activities slots locked policy).at w
serve_timetable-KeepsBooked ports context (TimetableMethod.apply_result result) w =
    (apply_generation-Keeps ports context result).at w
serve_timetable-KeepsBooked ports context (TimetableMethod.apply_sessions sessions locked versions)
      w =
    (apply_proposal-Keeps ports context sessions locked versions).at w

-- Whatever calls are served, by whatever actors and whether they return or raise, nothing is booked
-- twice: each session stands under its own key, and sessions of one organization that overlap share
-- neither a room nor a teacher nor a required group.
pub serve_timetables-IsBooked :
    (ports : SchedulingPorts) (calls : List (TenantActorContext × TimetableMethod))
    (w : SchedulingWorld)
    → IsBooked w.sessions
    → IsBooked (serve_timetables ports calls w).sessions
unfolding serve_timetables
serve_timetables-IsBooked ports [] w b = b
serve_timetables-IsBooked ports ((context, m) ∷ rest) w b =
    serve_timetables-IsBooked ports rest (serve_timetable ports context m w)
      (serve_timetable-KeepsBooked ports context m w b)
