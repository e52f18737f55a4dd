-- ===== src/Scheduling/Unscheduled.antt =====
-- Which conflicts say that a session could not be placed: `detect_hard_conflicts` of
-- backend/src/scheduling/domain/constraints.py reports no such, only
-- backend/src/scheduling/application/generator.py does.
use mathlib.Core.Path.{subst}
use onwlms.Prelude.{
  Bool, List, Option, String, [], arith, count, count-append, false, map, nat_eq, none, pair_eq,
  refl, some, string_eq, true, ◌++◌, ◌∷◌, ◌≡◌,
}
use onwlms.Core.{>>=-eq-ok, Uuid, ok}
use onwlms.Scheduling.Conflicts.{
  HardConflict, HardConstraintCode, conflicts_found, detect_hard_conflicts, overlap_conflicts,
  room_conflicts, session_conflicts, shared, teacher_conflicts, when,
}
use onwlms.Scheduling.Context.{ConstraintContext, RoomSpecification}
use onwlms.Scheduling.Generation.{ScheduleGenerationRequest}
use onwlms.Scheduling.Generator.{Texts}
use onwlms.Scheduling.Generator.Generate.{locked_conflicts}
use onwlms.Scheduling.Sessions.{ScheduledSession}

abbrev is_unscheduled_code : HardConstraintCode → Bool
is_unscheduled_code HardConstraintCode.unscheduled_activity = true
is_unscheduled_code _ = false

abbrev pub is_unscheduled : HardConflict → Bool
is_unscheduled c = is_unscheduled_code c.code

-- No conflict of the list says that a session could not be placed.
record IsClear (cs : List HardConflict) : Type 0 where
  none_of : count is_unscheduled cs ≡ 0

when-none : (b : Bool) (c : HardConflict) → is_unscheduled c ≡ false → IsClear (when b c)
when-none true c h = record { none_of = ground (arith, h) }
when-none false c h = record { none_of = refl }

map-none :
    {A : Type 0} (f : A → HardConflict) (xs : List A)
    → ((x : A) → is_unscheduled (f x) ≡ false)
    → IsClear (map f xs)
map-none f [] h = record { none_of = refl }
map-none f (x ∷ xs) h = record { none_of = ground (arith, h x, (map-none f xs h).none_of) }

both-none : (cs ds : List HardConflict) → IsClear cs → IsClear ds → IsClear (cs ++ ds)
both-none cs ds h k = record {
  none_of = omega (arith, count-append is_unscheduled cs ds, h.none_of, k.none_of);
}

room-none :
    (casefold : String → String) (s : ScheduledSession) (r : Option RoomSpecification)
    → IsClear (room_conflicts casefold s r)
unfolding room_conflicts
room-none casefold s none = record { none_of = refl }
room-none casefold s (some r) = both-none _ _ (when-none _ _ refl) (when-none _ _ refl)

teacher-none :
    (s : ScheduledSession) (context : ConstraintContext) (ts : List Uuid)
    → IsClear (teacher_conflicts s context ts)
unfolding teacher_conflicts
teacher-none s context [] = record { none_of = refl }
teacher-none s context (t ∷ ts) = both-none _ _ (when-none _ _ refl) (teacher-none s context ts)

overlap-none : (s e : ScheduledSession) → IsClear (overlap_conflicts s e)
unfolding overlap_conflicts
overlap-none s e = both-none _ _ (when-none _ _ refl) (
    both-none _ _ (map-none _ (shared s.teacher_ids e.teacher_ids) (λ x. refl))
      (map-none _ (shared s.required_group_ids e.required_group_ids) (λ x. refl)))

session-none :
    (s : ScheduledSession) (es : List ScheduledSession) → IsClear (session_conflicts s es)
unfolding session_conflicts
session-none s [] = record { none_of = refl }
session-none s (e ∷ es) =
    let here = both-none _ (session_conflicts s es) (overlap-none s e) (session-none s es) in
    record { none_of = ground (arith, here.none_of, (session-none s es).none_of) }

module _ (casefold : String → String) (s : ScheduledSession) (existing : List ScheduledSession)
    (context : ConstraintContext) where
  found-none : IsClear (conflicts_found casefold s existing context)
  unfolding conflicts_found
  found-none = both-none _ _ (room-none casefold s _) (
      both-none _ _ (when-none _ _ refl)
        (both-none _ _ (teacher-none s context s.teacher_ids) (session-none s existing)))

  detect-found :
      (cs : List HardConflict)
      → detect_hard_conflicts casefold s existing context ≡ ok cs
      → conflicts_found casefold s existing context ≡ cs
  unfolding detect_hard_conflicts
  detect-found cs h = ground (arith, h)

  pub detect-none :
      (cs : List HardConflict)
      → detect_hard_conflicts casefold s existing context ≡ ok cs
      → count is_unscheduled cs ≡ 0
  detect-none cs h =
      subst (λ cs. count is_unscheduled cs ≡ 0) (detect-found cs h) found-none.none_of

-- The conflicts of the locks are none of these either.
pub locked-none :
    (texts : Texts) (request : ScheduleGenerationRequest) (earlier rest : List ScheduledSession)
    (cs : List HardConflict)
    → locked_conflicts texts request earlier rest ≡ ok cs
    → count is_unscheduled cs ≡ 0
unfolding locked_conflicts
locked-none texts request earlier [] cs h =
    let e : [] ≡ cs = cc in subst (λ cs. count is_unscheduled cs ≡ 0) e refl
locked-none texts request earlier (s ∷ rest) cs h =
    let (found, one, h') =
      >>=-eq-ok (detect_hard_conflicts texts.casefold s earlier request.constraints) _ h in
    let (others, later, h2) =
      >>=-eq-ok (locked_conflicts texts request (earlier ++ s ∷ []) rest) _ h' in
    let e : found ++ others ≡ cs = cc in
    subst (λ cs. count is_unscheduled cs ≡ 0) e
      (omega (
        arith,
        count-append is_unscheduled found others,
        detect-none texts.casefold s earlier request.constraints found one,
        locked-none texts request (earlier ++ s ∷ []) rest others later,
      ))
