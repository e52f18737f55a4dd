-- ===== src/Scheduling/Drafts.antt =====
-- What the loops of `generate` of backend/src/scheduling/application/generator.py do to the draft.
use mathlib.Core.List.{append-nil, append_assoc}
use mathlib.Core.Path.{subst}
use onwlms.Prelude.{
  List, [], ap, arith, count, count-append, inl, length, nat_eq, pair_eq, refl, string_eq, suc, sym,
  zero, ℕ, ◌++◌, ◌+◌, ◌∙◌, ◌∷◌, ◌≡◌,
}
use onwlms.Prelude.Quantifiers.{Member, Member-snoc, append-eq-nil}
use onwlms.Prelude.Sums.{length-snoc, sum_of}
use onwlms.Core.{>>=-eq-ok, ok}
use onwlms.Scheduling.Beside.{Harmonious, Harmonious-snoc}
use onwlms.Scheduling.Conflicts.{detect_hard_conflicts}
use onwlms.Scheduling.Feasible.{detect_hard_conflicts_iff}
use onwlms.Scheduling.Generation.{ActivityRequest, ScheduleGenerationRequest}
use onwlms.Scheduling.Generator.{Placed, Texts, place_activity}
use onwlms.Scheduling.Generator.Generate.{
  Draft, after_placement, feasible_placement_count, locked_activity_count, locked_conflicts,
  locked_sessions, missing, ordered_rooms, ordered_slots, place_activities, place_ordinals, ranked,
  unscheduled,
}
use onwlms.Scheduling.Placing.{IsAnswer, place_activity-IsAnswer}
use onwlms.Scheduling.Sessions.{ScheduledSession}
use onwlms.Scheduling.Unscheduled.{is_unscheduled}

module _ (texts : Texts) (request : ScheduleGenerationRequest) where
  abbrev pub Agreeable : List ScheduledSession → Type 0
  Agreeable = Harmonious texts.casefold request.constraints

  -- What placing so many sessions does to the proposal and the reports.
  pub record Extends (n : ℕ) (p q : Draft) : Type 0 where
    pub kept : (s : ScheduledSession) → Member s p.proposed → Member s q.proposed
    pub reported : q.unresolved ≡ [] → p.unresolved ≡ []
    pub sound : Agreeable p.proposed → Agreeable q.proposed
    pub counted :
        length q.proposed + count is_unscheduled q.unresolved
        ≡ length p.proposed + count is_unscheduled p.unresolved + n

  Extends-refl : (p : Draft) → Extends 0 p p
  Extends-refl p = record {
    kept = λ s m. m;
    reported = λ e. e;
    sound = λ h. h;
    counted = omega arith;
  }

  Extends-trans : (m n : ℕ) (p q r : Draft) → Extends m p q → Extends n q r → Extends (m + n) p r
  Extends-trans m n p q r a b = record {
    kept = λ s k. b.kept s (a.kept s k);
    reported = λ e. a.reported (b.reported e);
    sound = λ h. b.sound (a.sound h);
    counted = omega (arith, a.counted, b.counted);
  }

  after-Extends :
      (activity : ActivityRequest) (ordinal : ℕ) (outcome : Placed) (p : Draft)
      → IsAnswer texts request activity ordinal p.proposed
          (ordered_slots texts request)
          (ordered_rooms texts request)
          outcome
      → Extends 1 p (after_placement texts request activity outcome p)
  after-Extends activity ordinal (Placed.placed s) p (k, fits, least) = record {
    kept = λ t m. (Member-snoc t p.proposed s).1 (inl m);
    reported = λ e. e;
    sound = λ h. Harmonious-snoc texts.casefold request.constraints p.proposed s h fits;
    counted = omega (arith, length-snoc p.proposed s);
  }
  after-Extends activity ordinal (Placed.blocked conflicts) p none_fits = record {
    kept = λ t m. m;
    reported = λ e. ((append-eq-nil p.unresolved _).0 e).0;
    sound = λ h. h;
    counted = omega (
      arith,
      count-append is_unscheduled p.unresolved (unscheduled texts activity conflicts ∷ []),
    );
  }

  place_ordinals-Extends :
      (activity : ActivityRequest) (n ordinal : ℕ) (p q : Draft)
      → place_ordinals texts request activity n ordinal p ≡ ok q
      → Extends n p q
  unfolding place_ordinals
  place_ordinals-Extends activity zero ordinal p q h =
      let e : p ≡ q = cc in subst (Extends 0 p) e (Extends-refl p)
  place_ordinals-Extends activity (suc n) ordinal p q h =
      let (outcome, one, h') =
        >>=-eq-ok
          (place_activity texts request activity ordinal p.proposed (ordered_slots texts request)
            (ordered_rooms texts request))
          _ h in
      subst (λ k. Extends k p q) (omega arith)
        (Extends-trans 1 n p (after_placement texts request activity outcome p) q
          (after-Extends activity ordinal outcome p (
            place_activity-IsAnswer texts request activity ordinal p.proposed
              (ordered_slots texts request) (ordered_rooms texts request) outcome one))
          (place_ordinals-Extends activity n (ordinal + 1)
            (after_placement texts request activity outcome p) q h'))

  pub place_activities-Extends :
      (activities : List (ℕ × ActivityRequest)) (p q : Draft)
      → place_activities texts request activities p ≡ ok q
      → Extends (sum_of (λ (n, a). missing texts request a) activities) p q
  unfolding place_activities
  place_activities-Extends [] p q h = let e : p ≡ q = cc in subst (Extends 0 p) e (Extends-refl p)
  place_activities-Extends ((n, activity) ∷ rest) p q h =
      let (r, one, h') =
        >>=-eq-ok
          (place_ordinals texts request activity (missing texts request activity)
            (locked_activity_count activity (locked_sessions texts request)) p)
          _ h in
      Extends-trans (missing texts request activity) _ p r q
        (place_ordinals-Extends activity _ _ p r one) (place_activities-Extends rest r q h')

  pub ranked-sum :
      (activities : List ActivityRequest) (keyed : List (ℕ × ActivityRequest))
      → ranked texts request activities ≡ ok keyed
      → sum_of (λ (n, a). missing texts request a) keyed ≡ sum_of (missing texts request) activities
  unfolding ranked
  ranked-sum [] [] h = refl
  ranked-sum [] (k ∷ ks) h = absurd (ground arith)
  ranked-sum (a ∷ activities) keyed h =
      let (n, one, h') = >>=-eq-ok (feasible_placement_count texts request a) _ h in
      let (ks, others, e) = >>=-eq-ok (ranked texts request activities) _ h' in
      let built : (n, a) ∷ ks ≡ keyed = cc in
      ap (sum_of (λ (n, a). missing texts request a)) (sym built)
      ∙ ap (λ m. missing texts request a + m) (ranked-sum activities ks others)

  -- Locked sessions without conflicts can be held beside each other.
  pub locked-Agreeable :
      (earlier rest : List ScheduledSession)
      → locked_conflicts texts request earlier rest ≡ ok []
      → Agreeable earlier
      → Agreeable (earlier ++ rest)
  unfolding locked_conflicts
  locked-Agreeable earlier [] h g = subst Agreeable (sym (append-nil earlier)) g
  locked-Agreeable earlier (s ∷ rest) h g =
      let (here, one, h') =
        >>=-eq-ok (detect_hard_conflicts texts.casefold s earlier request.constraints) _ h in
      let (others, later, e) =
        >>=-eq-ok (locked_conflicts texts request (earlier ++ s ∷ []) rest) _ h' in
      let joined : here ++ others ≡ [] = cc in
      let (free, free') = (append-eq-nil here others).0 joined in
      let fits =
        (detect_hard_conflicts_iff texts.casefold s earlier request.constraints).0
          (one ∙ ap ok free) in
      subst Agreeable (append_assoc earlier (s ∷ []) rest) (
        locked-Agreeable (earlier ++ s ∷ []) rest (later ∙ ap ok free')
          (Harmonious-snoc texts.casefold request.constraints earlier s g fits))
