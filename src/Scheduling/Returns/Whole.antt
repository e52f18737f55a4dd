-- ===== src/Scheduling/Returns/Whole.antt =====
-- `generate` of backend/src/scheduling/application/generator.py returns on a request that fits.
use mathlib.Core.Path.{subst}
use onwlms.Prelude.{
  List, [], all, ap, arith, false, inl, inr, is_unique, map, nat_beq_iff, nat_eq, pair_eq, refl,
  sort, string_eq, suc, sym, true, zero, ℕ, ◌*◌, ◌++◌, ◌+◌, ◌∙◌, ◌∷◌, ◌≡◌, ◌≤◌,
}
use onwlms.Prelude.Quantifiers.{
  All-mono, All-of, All_at, Member, Member-filter, Member-sort, any-false,
}
use onwlms.Prelude.Sums.{unique-map-sort}
use onwlms.Core.{ok, ◌>>=◌}
use onwlms.Core.Text.{is_blank, ◌+s◌}
use onwlms.Scheduling.Conflicts.{detect_hard_conflicts}
use onwlms.Scheduling.Generation.{
  ActivityRequest, ScheduleGenerationRequest, ScheduleGenerationResult, check_result, one_point,
}
use onwlms.Scheduling.Generator.{Texts, candidate_attempts, session_order}
use onwlms.Scheduling.Generator.Generate.{
  Draft, activity_order, after_placement, feasible_placement_count, generate, locked_activity_count,
  locked_conflicts, locked_sessions, missing, ordered_rooms, ordered_slots, place_activities,
  place_all, place_ordinals, ranked, scored, snapshot_versions,
}
use onwlms.Scheduling.Placing.{place_activity-IsAnswer}
use onwlms.Scheduling.Returns.{
  Home, IsAnswerable, Returns, all_attempts-Returns, bind-Returns, bind-ok, detect-Returns, guards,
  home, place_activity-Returns, placed-Home, snoc-Home,
}
use onwlms.Scheduling.Sessions.{ScheduledSession}

check_result-Returns :
    (r : ScheduleGenerationResult)
    → r.quality_score ≤ 100 * one_point
    → is_blank r.explanation ≡ false
    → is_unique (map (λ (i, v). i) r.expected_versions) ≡ true
    → Returns (check_result r)
unfolding check_result
check_result-Returns r score text unique = (r, ground (arith, score, text, unique))

keys_of_versions :
    (sessions : List ScheduledSession)
    → map (λ (i, v). i) (map (λ (s : ScheduledSession). (s.id, s.version)) sessions)
      ≡ map (λ (s : ScheduledSession). s.id) sessions
keys_of_versions [] = refl
keys_of_versions (s ∷ sessions) = ap (λ ks. s.id ∷ ks) (keys_of_versions sessions)

unique-snapshot :
    (sessions : List ScheduledSession)
    → is_unique (map (λ (i, v). i) (snapshot_versions sessions))
      ≡ is_unique (map (λ s. s.id) sessions)
unique-snapshot sessions =
    unique-map-sort (λ (i, v). i) _ (map (λ s. (s.id, s.version)) sessions)
    ∙ ap is_unique (keys_of_versions sessions)

module _ (texts : Texts) (request : ScheduleGenerationRequest) where
  module _ (fit : IsAnswerable request) where
    ordinals-Returns :
        (a : ActivityRequest) (n ordinal : ℕ) (p : Draft)
        → Member a request.activities
        → Home texts request p.proposed
        → (q : Draft) × (place_ordinals texts request a n ordinal p ≡ ok q)
          × Home texts request q.proposed
    unfolding place_ordinals
    ordinals-Returns a zero ordinal p known h = (p, refl, h)
    ordinals-Returns a (suc n) ordinal p known h =
        let (outcome, e) = place_activity-Returns texts request fit a known ordinal p.proposed h in
        let answer =
          place_activity-IsAnswer texts request a ordinal p.proposed (ordered_slots texts request)
            (ordered_rooms texts request) outcome e in
        let (q, run, there) =
          ordinals-Returns a n (ordinal + 1) (after_placement texts request a outcome p) known
            (placed-Home texts request fit a known ordinal p.proposed h outcome p refl answer) in
        (
          q,
          ap
                (λ r. r >>= λ o.
                  place_ordinals texts request a n (ordinal + 1)
                    (after_placement texts request a o p))
                e
              ∙ run,
          there,
        )

    activities-Returns :
        (keyed : List (ℕ × ActivityRequest)) (p : Draft)
        → ((k : ℕ × ActivityRequest) → Member k keyed → Member k.1 request.activities)
        → Home texts request p.proposed
        → Returns (place_activities texts request keyed p)
    unfolding place_activities
    activities-Returns [] p sub h = (p, refl)
    activities-Returns ((n, a) ∷ rest) p sub h =
        let (q, run, there) =
          ordinals-Returns a (missing texts request a)
            (locked_activity_count a (locked_sessions texts request)) p (sub (n, a) (inl refl)) h in
        let (r, e) = activities-Returns rest q (λ k m. sub k (inr m)) there in
        (r, bind-ok _ (place_activities texts request rest) run e)

    count-Returns :
        (a : ActivityRequest)
        → Member a request.activities
        → Home texts request (locked_sessions texts request)
        → Returns (feasible_placement_count texts request a)
    unfolding feasible_placement_count
    count-Returns a known h =
        let ordinal = locked_activity_count a (locked_sessions texts request) in
        bind-Returns
          (candidate_attempts texts request a ordinal (locked_sessions texts request)
            (ordered_slots texts request) (ordered_rooms texts request))
          _
          (all_attempts-Returns texts request fit a known ordinal (locked_sessions texts request) h)
          λ attempts _. (_, refl)

    ranked-Returns :
        (activities : List ActivityRequest)
        → ((a : ActivityRequest) → Member a activities → Member a request.activities)
        → Home texts request (locked_sessions texts request)
        → (keyed : List (ℕ × ActivityRequest)) × (ranked texts request activities ≡ ok keyed)
          × ((k : ℕ × ActivityRequest) → Member k keyed → Member k.1 request.activities)
    unfolding ranked
    ranked-Returns [] sub h = ([], refl, λ k m. elim m [ ])
    ranked-Returns (a ∷ activities) sub h =
        let (n, e) = count-Returns a (sub a (inl refl)) h in
        let (keyed, e', all) = ranked-Returns activities (λ b m. sub b (inr m)) h in
        (
          (n, a) ∷ keyed,
          bind-ok (feasible_placement_count texts request a) _ e
              (bind-ok (ranked texts request activities) _ e' refl),
          λ k m. elim m [
            | inl same ↦
                subst (λ (k : ℕ × ActivityRequest). Member k.1 request.activities) same
                  (sub a (inl refl))
            | inr m' ↦ all k m'
          ],
        )

    conflicts-Returns :
        (earlier rest : List ScheduledSession)
        → Home texts request earlier
        → Home texts request rest
        → Returns (locked_conflicts texts request earlier rest)
    unfolding locked_conflicts
    conflicts-Returns earlier [] h g = ([], refl)
    conflicts-Returns earlier (s ∷ rest) h (own, g) =
        bind-Returns (detect_hard_conflicts texts.casefold s earlier request.constraints) _
          (detect-Returns texts.casefold s earlier request.constraints own
            (All-mono (λ e there. there ∙ sym own) earlier h))
          λ found _.
            bind-Returns (locked_conflicts texts request (earlier ++ s ∷ []) rest) _
              (conflicts-Returns (earlier ++ s ∷ []) rest (snoc-Home texts request earlier s h own)
                g)
              λ others _. (_, refl)

    locked-Home : Home texts request (locked_sessions texts request)
    locked-Home = All-of _ (locked_sessions texts request) λ s m.
        let known =
          ((Member-filter _ s request.existing_sessions).0
            ((Member-sort session_order s _).0 m)).0 in
        let tenant =
          All_at _ request.existing_sessions
            ((any-false _ request.existing_sessions).0 (guards texts request fit.checked).1) s
            known in
        ground (arith, tenant, nat_beq_iff s.organization_id request.organization_id)
        ∙ home texts request fit

    place_all-Returns : Returns (place_all texts request)
    unfolding place_all
    place_all-Returns =
        let (keyed, e, all) = ranked-Returns request.activities (λ a m. m) locked-Home in
        bind-Returns (locked_conflicts texts request [] (locked_sessions texts request)) _
          (conflicts-Returns [] (locked_sessions texts request) tt locked-Home)
          λ conflicts _.
            let (p, e') =
              activities-Returns (sort activity_order keyed)
                (record { proposed = locked_sessions texts request; unresolved = conflicts })
                (λ k m. all k ((Member-sort activity_order k keyed).0 m)) locked-Home in
            (p, bind-ok (ranked texts request request.activities) _ e e')

    scored-Returns : (p : Draft) → Returns (scored texts request p)
    unfolding scored is_blank ◌+s◌
    scored-Returns p =
        check_result-Returns _ (omega arith) refl
          (unique-snapshot request.existing_sessions ∙ fit.unique)

    -- On a request that has passed its checks, with stored sessions that have different identifiers,
    -- with slots and activities that have passed theirs, and activities that name no teacher and no
    -- group twice, the generator answers.
    pub generate-Returns :
        (result : ScheduleGenerationResult) × (generate texts request ≡ ok result)
    unfolding generate
    generate-Returns =
        bind-Returns (place_all texts request) _ place_all-Returns λ p _. scored-Returns p
