-- ===== src/Scheduling/Generated.antt =====
-- What `generate` of backend/src/scheduling/application/generator.py proposes.
use mathlib.Core.Path.{subst}
use onwlms.Prelude.{
  All, Bool, List, [], ap, arith, contains, count, filter, is_unique, length, map, nat_eq, pair_eq,
  sort, string_eq, sym, true, ℕ, ◌&&◌, ◌+◌, ◌-◌, ◌==◌, ◌∙◌, ◌≡◌,
}
use onwlms.Prelude.Quantifiers.{All-of, All_at, Member, Member-sort}
use onwlms.Prelude.Sums.{
  count-filter, count-sort, length-filter, length-sort, sum_of, sum_of-ext, sum_of-sort,
}
use onwlms.Core.{>>=-eq-ok, ok}
use onwlms.Scheduling.Beside.{Compatible-NothingTwice, Harmonious, Harmonious-sort, NothingTwice}
use onwlms.Scheduling.Conflicts.{HardConflict}
use onwlms.Scheduling.Drafts.{
  Agreeable, Extends, locked-Agreeable, place_activities-Extends, ranked-sum,
}
use onwlms.Scheduling.Generation.{
  ActivityRequest, ScheduleGenerationRequest, ScheduleGenerationResult, check_result,
}
use onwlms.Scheduling.Generator.{Texts, session_order}
use onwlms.Scheduling.Generator.Generate.{
  Draft, generate, locked_activity_count, locked_conflicts, locked_sessions, missing, place_all,
  ranked, scored,
}
use onwlms.Scheduling.Sessions.{ScheduledSession}
use onwlms.Scheduling.Unscheduled.{is_unscheduled, locked-none}

module _ (texts : Texts) (request : ScheduleGenerationRequest) where
  check_result-same : (r q : ScheduleGenerationResult) → check_result r ≡ ok q → q ≡ r
  unfolding check_result
  check_result-same r q h = ground (arith, h)

  scored-same :
      (p : Draft) (result : ScheduleGenerationResult)
      → scored texts request p ≡ ok result
      → (result.proposed_sessions ≡ sort session_order p.proposed)
        × (result.unresolved_hard_conflicts ≡ p.unresolved)
  unfolding scored
  scored-same p result h =
      let e = check_result-same _ result h in
      (ap (λ r. r.proposed_sessions) e, ap (λ r. r.unresolved_hard_conflicts) e)

  module _ (result : ScheduleGenerationResult) (done : generate texts request ≡ ok result) where
    -- The run: the conflicts of the locks, and the draft that the loops reach.
    record Run : Type 0 where
      conflicts : List HardConflict
      of_locks : locked_conflicts texts request [] (locked_sessions texts request) ≡ ok conflicts
      draft : Draft
      extends :
          Extends texts request
            (sum_of (missing texts request) request.activities)
            (record { proposed = locked_sessions texts request; unresolved = conflicts })
            draft
      proposal : result.proposed_sessions ≡ sort session_order draft.proposed
      reports : result.unresolved_hard_conflicts ≡ draft.unresolved

    run : Run
    unfolding generate place_all
    run =
        let (draft, placed_all, h) = >>=-eq-ok (place_all texts request) _ done in
        let (conflicts, of_locks, h') =
          >>=-eq-ok (locked_conflicts texts request [] (locked_sessions texts request)) _
            placed_all in
        let (activities, keyed, h2) = >>=-eq-ok (ranked texts request request.activities) _ h' in
        record {
          conflicts = conflicts;
          of_locks = of_locks;
          draft = draft;
          extends =
              subst
                (λ n.
                  Extends texts request n
                    (record { proposed = locked_sessions texts request; unresolved = conflicts })
                    draft)
                (sum_of-sort _ _ activities
                  ∙ ranked-sum texts request request.activities activities keyed)
                (place_activities-Extends texts request _ _ draft h2);
          proposal = (scored-same draft result h).0;
          reports = (scored-same draft result h).1;
        }

    -- A proposal without unresolved conflicts, whose entries have different identifiers, can be held
    -- as it is: each of its sessions, locked or placed, is feasible beside all its sessions, and no
    -- two of its entries overlap with a room, a teacher or a required group in common.
    pub generate-Harmonious :
        result.unresolved_hard_conflicts ≡ []
        → is_unique (map (λ (s : ScheduledSession). s.id) result.proposed_sessions) ≡ true
        → Harmonious texts.casefold request.constraints result.proposed_sessions
          × NothingTwice result.proposed_sessions
    generate-Harmonious clear different =
        let none_left = run.extends.reported (sym run.reports ∙ clear) in
        let locks =
          locked-Agreeable texts request [] (locked_sessions texts request)
            (run.of_locks ∙ ap ok none_left) (λ s m. elim m [ ]) in
        let beside : Harmonious texts.casefold request.constraints result.proposed_sessions =
          subst (Agreeable texts request) (sym run.proposal) (
            Harmonious-sort texts.casefold request.constraints session_order run.draft.proposed
              (run.extends.sound locks)) in
        (
          beside,
          Compatible-NothingTwice result.proposed_sessions
              (λ s t m n. All_at _ result.proposed_sessions (beside s m).apart t n) different,
        )

    -- Whether the request lists the session, and how many sessions of the activity are neither
    -- listed nor stored.
    abbrev pub is_kept : ScheduledSession → Bool
    is_kept s = contains s.id request.locked_session_ids

    abbrev pub wanted : ActivityRequest → ℕ
    wanted a =
        a.sessions_required
        - count (λ s. is_kept s && s.activity_id == a.id) request.existing_sessions

    keeps_listed :
        (s : ScheduledSession)
        → Member s (filter is_kept request.existing_sessions)
        → Member s result.proposed_sessions
    keeps_listed s m = subst (Member s) (sym run.proposal) (
        (Member-sort session_order s run.draft.proposed).1
          (run.extends.kept s ((Member-sort session_order s _).1 m)))

    missing-wanted : (a : ActivityRequest) → missing texts request a ≡ wanted a
    unfolding locked_activity_count
    missing-wanted a = omega (
      arith,
      count-sort (λ s. s.activity_id == a.id) session_order
          (filter is_kept request.existing_sessions),
      count-filter is_kept (λ s. s.activity_id == a.id) request.existing_sessions,
    )

    -- Nothing is lost: each stored session whose identifier the request lists is in the proposal,
    -- unchanged. The proposal has one entry for each of these, and one for each session that an
    -- activity requires beyond those of its own that are kept, less those that are reported as
    -- unscheduled.
    pub generate_complete :
        All (λ s. Member s result.proposed_sessions) (filter is_kept request.existing_sessions)
        × (length result.proposed_sessions + count is_unscheduled result.unresolved_hard_conflicts
            ≡ count is_kept request.existing_sessions + sum_of wanted request.activities)
    generate_complete = (
      All-of _ (filter is_kept request.existing_sessions) keeps_listed,
      omega (
        arith,
        ap length run.proposal,
        ap (count is_unscheduled) run.reports,
        length-sort session_order run.draft.proposed,
        run.extends.counted,
        locked-none texts request [] (locked_sessions texts request) run.conflicts run.of_locks,
        length-sort session_order (filter is_kept request.existing_sessions),
        length-filter is_kept request.existing_sessions,
        sum_of-ext (missing texts request) wanted request.activities missing-wanted,
      ),
    )
