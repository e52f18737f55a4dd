-- ===== src/Scheduling/Booked.antt =====
-- Nothing is booked twice in a timetable: the table of sessions of
-- backend/src/scheduling/infrastructure/repository.py.
use mathlib.Core.Path.{subst, subst₂}
use onwlms.Prelude.{
  Bool, List, Option, String, [], ap, arith, false, inl, inr, nat_eq, pair_beq_iff, pair_eq, refl,
  some, string_eq, sym, ℕ, ◌∙◌, ◌∷◌, ◌≡◌, ◌≢◌, ◌⊎◌,
}
use onwlms.Prelude.Dict.{Dict, insert, lookup, lookup-insert-cases, values}
use onwlms.Prelude.Quantifiers.{All_at, Member, Member-filter}
use onwlms.Core.{>>=-eq-ok, Uuid, ok, raise_if, scheduling_conflict}
use onwlms.Scheduling.Beside.{Compatible-self, Compatible-sym}
use onwlms.Scheduling.Conflicts.{HardConflict, detect_hard_conflicts}
use onwlms.Scheduling.Context.{ConstraintContext}
use onwlms.Scheduling.Feasible.{Compatible, detect_hard_conflicts_iff}
use onwlms.Scheduling.Repository.{
  SessionKey, SessionTable, check_expected, has_conflicts, others_of, save_conflict_free_session,
  save_session,
}
use onwlms.Scheduling.Sessions.{ScheduledSession, occurrence_starts, occurrences}

pub record IsBooked (t : SessionTable) : Type 0 where
  pub keyed :
      (org id : Uuid) (s : ScheduledSession)
      → lookup (org, id) t ≡ some s
      → (s.organization_id ≡ org) × (s.id ≡ id)
  pub apart :
      (org id id' : Uuid) (s s' : ScheduledSession)
      → lookup (org, id) t ≡ some s
      → lookup (org, id') t ≡ some s'
      → Compatible s s'

lookup-Member :
    {V : Type 0} (k : SessionKey) (v : V) (d : Dict SessionKey V)
    → lookup k d ≡ some v
    → Member v (values d)
unfolding lookup
lookup-Member k v [] h = absurd (ground arith)
lookup-Member k v ((j, w) ∷ d) h = ground (arith, lookup-Member k v d)

pub has_conflicts-false : (cs : List HardConflict) → has_conflicts cs ≡ false → cs ≡ []
has_conflicts-false [] h = refl
has_conflicts-false (c ∷ cs) h = absurd (ground (arith, h))

abbrev pub saved : ScheduledSession → SessionTable → SessionTable
saved session t = insert (session.organization_id, session.id) session t

module _ (session : ScheduledSession) (t : SessionTable) (b : IsBooked t) where
  -- A session that is compatible with the other ones of its tenant may be stored.
  pub saved-IsBooked :
      ((id : Uuid) (s : ScheduledSession)
        → lookup (session.organization_id, id) t ≡ some s
        → id ≢ session.id
        → Compatible session s)
      → IsBooked (saved session t)
  saved-IsBooked free = record {
    keyed = λ org id s h. elim (entry org id s h) [
      | inl (o, i, e) ↦ (ap (λ s. s.organization_id) e ∙ sym o, ap (λ s. s.id) e ∙ sym i)
      | inr (_, old) ↦ b.keyed org id s old
    ];
    apart = λ org id id' s s' h h'. elim (entry org id s h) [
      | inl (o, i, e) ↦ elim (entry org id' s' h') [
        | inl (_, _, e') ↦ subst₂ Compatible (sym e) (sym e') (Compatible-self session)
        | inr (other, old) ↦
            subst (λ s. Compatible s s') (sym e) (beside org id' s' o (other o) old)
      ]
      | inr (other, old) ↦ elim (entry org id' s' h') [
        | inl (o, i, e') ↦
            subst (Compatible s) (sym e')
              (Compatible-sym session s (beside org id s o (other o) old))
        | inr (_, old') ↦ b.apart org id id' s s' old old'
      ]
    ];
  }
    where
      entry :
          (org id : Uuid) (s : ScheduledSession)
          → lookup (org, id) (saved session t) ≡ some s
          → ((org ≡ session.organization_id) × (id ≡ session.id) × (s ≡ session))
            ⊎ (((org ≡ session.organization_id) → (id ≡ session.id) → ⊥)
                × (lookup (org, id) t ≡ some s))
      entry org id s h =
          elim (lookup-insert-cases (session.organization_id, session.id) (org, id) session s t h) [
            | inl (same, e) ↦ inl (ap (λ k. k.0) same, ap (λ k. k.1) same, e)
            | inr (other, old) ↦ inr (
              λ o i. ground (
                arith,
                other,
                o,
                i,
                pair_beq_iff (session.organization_id, session.id) (org, id),
              ),
              old,
            )
          ]

      beside :
          (org id : Uuid) (s : ScheduledSession)
          → org ≡ session.organization_id
          → (id ≡ session.id → ⊥)
          → lookup (org, id) t ≡ some s
          → Compatible session s
      beside org id s o other old = free id s (subst (λ x. lookup (x, id) t ≡ some s) o old) other

pub save_session-saved :
    (session : ScheduledSession) (expected : Option ℕ) (t t' : SessionTable)
    → save_session session expected t ≡ ok t'
    → saved session t ≡ t'
unfolding save_session
save_session-saved session expected t t' h =
    let (_, _, e) =
      >>=-eq-ok (check_expected (lookup (session.organization_id, session.id) t) expected) _ h in
    cc

abbrev pub KeepsBooked : SessionTable → SessionTable → Type 0
KeepsBooked t t' = IsBooked t → IsBooked t'

-- The look again under the lock is enough, whatever was looked up before.
pub save_conflict_free-KeepsBooked :
    (casefold : String → String) (session : ScheduledSession) (expected : Option ℕ)
    (constraints : ConstraintContext) (t t' : SessionTable)
    → save_conflict_free_session casefold session expected constraints t ≡ ok t'
    → KeepsBooked t t'
unfolding save_conflict_free_session
save_conflict_free-KeepsBooked casefold session expected constraints t t' h b =
    let (conflicts, detected, h') =
      >>=-eq-ok (detect_hard_conflicts casefold session (others_of session t) constraints) _ h in
    let (_, passed, h2) = >>=-eq-ok (raise_if (has_conflicts conflicts) scheduling_conflict) _ h' in
    let clear = has_conflicts-false conflicts (ground (arith, passed)) in
    let f =
      (detect_hard_conflicts_iff casefold session (others_of session t) constraints).0
        (detected ∙ ap ok clear) in
    subst IsBooked (save_session-saved session expected t t' h2) (
      saved-IsBooked session t b λ id s stored other.
        let (o, i) = b.keyed session.organization_id id s stored in
        All_at _ (others_of session t) f.apart s (
          (Member-filter _ s (values t)).1
            (lookup-Member (session.organization_id, id) s t stored, ground (arith, o, i, other))))

-- A session that changes in its lock and its version only.
pub relocked-KeepsBooked :
    (current : ScheduledSession) (locked : Bool) (version : ℕ) (expected : Option ℕ)
    (t t' : SessionTable)
    → lookup (current.organization_id, current.id) t ≡ some current
    → save_session (record current { locked = locked; version = version }) expected t ≡ ok t'
    → KeepsBooked t t'
unfolding occurrences occurrence_starts
relocked-KeepsBooked current locked version expected t t' stored h b =
    subst IsBooked (save_session-saved _ expected t t' h) (
      saved-IsBooked (record current { locked = locked; version = version }) t b
        λ id s at other. b.apart current.organization_id current.id id current s stored at)
