-- ===== src/Scheduling/Saves.antt =====
-- Writes that meet: the compare-and-swap of sessions and the windows of teachers, of
-- backend/src/scheduling/infrastructure/repository.py.
use mathlib.Core.Path.{subst₂}
use mathlib.Core.Path.{ap₂}
use onwlms.Prelude.{
  Option-cases, [], ap, arith, inl, inr, is_some, nat_eq, none, pair_eq, refl, some, string_eq, sym,
  true, ℕ, ◌∙◌, ◌∷◌, ◌≡◌, ◌≢◌,
}
use onwlms.Prelude.Dict.{Dict, beq_refl, insert, lookup, lookup-insert_self, remove}
use onwlms.Core.{conflict, err, ok, schedule_version_conflict}
use onwlms.Scheduling.Booked.{save_session-saved}
use onwlms.Scheduling.Repository.{
  SessionKey, SessionTable, WindowTable, create_window, delete_window, save_session,
}
use onwlms.Scheduling.Sessions.{ScheduledSession}
use onwlms.Scheduling.Windows.{TeacherAvailabilityWindow}

-- A new key goes to the end, and taking it away leaves what was there.
remove-insert :
    {V : Type 0} (k : SessionKey) (v : V) (d : Dict SessionKey V)
    → lookup k d ≡ none
    → remove k (insert k v d) ≡ d
unfolding lookup insert remove
remove-insert k v [] h = ground (arith, beq_refl k)
remove-insert k v ((j, w) ∷ d) h = ground (arith, remove-insert k v d, remove-unknown d, h)
  where
    remove-unknown : {V : Type 0} (d : Dict SessionKey V) → lookup k d ≡ none → remove k d ≡ d
    remove-unknown [] h = refl
    remove-unknown ((i, u) ∷ e) h = ground (arith, remove-unknown e, h)

-- Once a save has gone through with a new version, a save of the same session that expects the
-- version from before is refused, and so is a save that expects no session.
pub save_session_refuses_stale :
    (session other : ScheduledSession) (version : ℕ) (t t' : SessionTable)
    → session.version ≢ version
    → other.organization_id ≡ session.organization_id
    → other.id ≡ session.id
    → save_session session (some version) t ≡ ok t'
    → (save_session other (some version) t' ≡ err schedule_version_conflict)
      × (save_session other none t' ≡ err conflict)
unfolding save_session
save_session_refuses_stale session other version t t' new org id saved_once =
    let e = save_session-saved session (some version) t t' saved_once in
    let at : lookup (other.organization_id, other.id) t' ≡ some session =
      subst₂ (λ o i. lookup (o, i) t' ≡ some session) (sym org) (sym id)
        (ap (lookup (session.organization_id, session.id)) (sym e)
          ∙ lookup-insert_self (session.organization_id, session.id) session t) in
    (ground (arith, at, new), ground (arith, at))

abbrev key_of : TeacherAvailabilityWindow → SessionKey
key_of window = (window.organization_id, window.id)

created :
    (window : TeacherAvailabilityWindow) (t t' : WindowTable)
    → create_window window t ≡ ok t'
    → (lookup (key_of window) t ≡ none) × (insert (key_of window) window t ≡ t')
unfolding create_window
created window t t' h = elim (Option-cases (lookup (key_of window) t)) [
  | inl fresh ↦ (fresh, ground (arith, h, fresh))
  | inr (w, known) ↦ absurd (ground (arith, h, known))
]

-- A window that was created is deleted again without a trace, and until then creating it once more
-- is refused.
pub create_window_roundtrip :
    (window : TeacherAvailabilityWindow) (t t' : WindowTable)
    → create_window window t ≡ ok t'
    → (delete_window window.organization_id window.id t' ≡ (true, t))
      × (create_window window t' ≡ err conflict)
unfolding create_window delete_window
create_window_roundtrip window t t' h =
    let (fresh, e) = created window t t' h in
    let at : lookup (key_of window) t' ≡ some window =
      ap (lookup (key_of window)) (sym e) ∙ lookup-insert_self (key_of window) window t in
    (
      ap₂ (λ b d. (b, d)) (ap is_some at)
          (ap (remove (key_of window)) (sym e) ∙ remove-insert (key_of window) window t fresh),
      ground (arith, at),
    )
