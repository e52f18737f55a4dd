-- ===== src/Scheduling/Timetabled.antt =====
-- The calls of `TimetableService` of backend/src/scheduling/application/service.py book nothing
-- twice.
pub mod Served
use mathlib.Core.Path.{subst, subst₂}
use onwlms.Prelude.{List, String, arith, nat_eq, none, pair_eq, refl, some, string_eq, ℕ, ◌≡◌}
use onwlms.Core.{Result, TenantActorContext, Uuid, err, ok}
use onwlms.Core.Exec.{pure, ◌>>=◌, ◌>>◌}
use onwlms.Core.Exec.Relates.{
  Relates, Relates-ask-bind, Relates-gets-bind, Relates-lift-bind, Relates-pure,
  Relates-require-bind,
}
use onwlms.Core.Exec.Views.{OnView, Spares, Spares-bind, bind-Spares, write-Relates}
use onwlms.Core.Time.{DateTime}
use onwlms.Scheduling.Booked.{KeepsBooked, save_conflict_free-KeepsBooked}
use onwlms.Scheduling.Repository.{SessionTable}
use onwlms.Scheduling.Service.{
  SchedulingAction, SchedulingPorts, SchedulingWorld, record_mutation_event,
  require_session_references, store_sessions, with_sessions,
}
use onwlms.Scheduling.Service.Manage.{create_session, move_session, require_no_conflicts}
use onwlms.Scheduling.Sessions.{ScheduledSession}

abbrev pub sessions_of : SchedulingWorld → SessionTable
sessions_of w = w.sessions

abbrev pub OnSessions :
    (SessionTable → SessionTable → Type 0) → SchedulingWorld → SchedulingWorld → Type 0
OnSessions Q = OnView sessions_of Q

abbrev IsCalm : {A : Type 0} → SchedulingAction A → Type 0
IsCalm m = Spares sessions_of m

abbrev pub KeepsTimetable : {A : Type 0} → SchedulingAction A → Type 0
KeepsTimetable m = Relates (OnSessions KeepsBooked) m

pub KeepsBooked-refl : (t : SessionTable) → KeepsBooked t t
KeepsBooked-refl t b = b

pub still : (w : SchedulingWorld) → OnSessions KeepsBooked w w
still w b = b

module _ (ports : SchedulingPorts) (context : TenantActorContext) where
  pub mutation-IsCalm :
      (action : String) (id : Uuid) (outcome : String)
      → IsCalm (record_mutation_event ports context action id outcome)
  unfolding record_mutation_event
  mutation-IsCalm action id outcome =
      write-Relates sessions_of (λ t t'. t ≡ t') (λ t. refl) _ (λ w w' h. ground (arith, h))

  -- The answer after the event of a success.
  pub told-IsCalm :
      {A : Type 0} (action : String) (id : Uuid) (outcome : String) (a : A)
      → IsCalm (record_mutation_event ports context action id outcome >> pure a)
  told-IsCalm action id outcome a =
      Spares-bind sessions_of (λ t t'. t ≡ t') (λ t. refl) _ _ (mutation-IsCalm action id outcome)
        (λ _. Relates-pure (λ w. refl) a)

  stored_source :
      (w w' : SchedulingWorld) (r : Result SessionTable)
      → with_sessions w r ≡ ok w'
      → r ≡ ok w'.sessions
  stored_source w w' (ok t) h = ground (arith, h)
  stored_source w w' (err e) h = absurd (ground (arith, h))

  store-Relates :
      (Q : SessionTable → SessionTable → Type 0) (same : (t : SessionTable) → Q t t)
      (f : SessionTable → Result SessionTable)
      → ((t t' : SessionTable) → f t ≡ ok t' → Q t t')
      → Relates (OnSessions Q) (store_sessions f)
  store-Relates Q same f k =
      write-Relates sessions_of Q same _
        (λ w w' h. k w.sessions w'.sessions (stored_source w w' (f w.sessions) h))

  -- An intent, a write, an outcome and an answer.
  pub announced :
      {A : Type 0} (Q : SessionTable → SessionTable → Type 0) (same : (t : SessionTable) → Q t t)
      (f : SessionTable → Result SessionTable) (started done : String) (id : Uuid) (a : A)
      → ((t t' : SessionTable) → f t ≡ ok t' → Q t t')
      → Relates (OnSessions Q) (do
        record_mutation_event ports context started id "intent_recorded"
        store_sessions f
        record_mutation_event ports context done id "succeeded"
        pure a)
  announced Q same f started done id a k =
      Spares-bind sessions_of Q same _ _ (mutation-IsCalm started id "intent_recorded") λ _.
        bind-Spares sessions_of Q same (store_sessions f) _ (store-Relates Q same f k)
          (λ _. told-IsCalm done id "succeeded" a)

  require_no_conflicts-IsCalm :
      (s : ScheduledSession) (existing : List ScheduledSession)
      → IsCalm (require_no_conflicts ports context s existing)
  unfolding require_no_conflicts
  require_no_conflicts-IsCalm s existing =
      Relates-lift-bind (λ w. refl) _ _
        λ constraints _.
          Relates-lift-bind (λ w. refl) _ _
            λ conflicts _.
              Relates-require-bind (λ w. refl) _ _ _ λ _. Relates-pure (λ w. refl) constraints

  pub create_session-Keeps :
      (s : ScheduledSession) → KeepsTimetable (create_session ports context s)
  unfolding create_session require_session_references
  create_session-Keeps s = Relates-require-bind still _ _ _ λ _.
      Relates-require-bind still _ _ _ λ _. Relates-require-bind still _ _ _ λ _.
        Relates-gets-bind still _ _ λ existing.
          Spares-bind sessions_of KeepsBooked KeepsBooked-refl _ _
            (require_no_conflicts-IsCalm s existing)
            λ constraints.
              announced KeepsBooked KeepsBooked-refl _ _ _ s.id s
                (save_conflict_free-KeepsBooked ports.casefold s none constraints)

  pub move_session-Keeps :
      (id : Uuid) (starts_at ends_at : DateTime) (version : ℕ)
      → KeepsTimetable (move_session ports context id starts_at ends_at version)
  unfolding move_session require_session_references
  move_session-Keeps id starts_at ends_at version = Relates-require-bind still _ _ _ λ _.
      Relates-ask-bind still _ _ λ current. Relates-require-bind still _ _ _ λ _.
        Relates-lift-bind still _ _ λ moved _. Relates-require-bind still _ _ _ λ _.
          Relates-gets-bind still _ _ λ existing.
            Spares-bind sessions_of KeepsBooked KeepsBooked-refl _ _
              (require_no_conflicts-IsCalm moved existing)
              λ constraints. announced KeepsBooked KeepsBooked-refl _ _ _ moved.id moved (
                save_conflict_free-KeepsBooked ports.casefold moved (some current.version)
                  constraints)
