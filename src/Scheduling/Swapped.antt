-- ===== src/Scheduling/Swapped.antt =====
-- A timetable that replaces another one books nothing twice: `replace_generated_schedule` of
-- backend/src/scheduling/infrastructure/repository.py.
use mathlib.Core.Path.{subst}
use onwlms.Prelude.{
  All, Bool-cases, List, Option-cases, String, [], all, any, ap, arith, contains, false, inl, inr,
  nat_beq_iff, nat_eq, not, pair_eq, some, string_eq, sym, ℕ, ◌++◌, ◌==◌, ◌∙◌, ◌∷◌, ◌≡◌, ◌≢◌, ◌⊎◌,
}
use onwlms.Prelude.Dict.{Dict, insert, lookup, lookup-insert-cases, values}
use onwlms.Prelude.Quantifiers.{
  All-mono, All_at, Member, Member-filter, Pointwise-right, any-false, append-eq-nil,
}
use onwlms.Core.{>>=-eq-ok, Uuid, ok, raise_if, scheduling_conflict}
use onwlms.Scheduling.Booked.{IsBooked, KeepsBooked, has_conflicts-false}
use onwlms.Scheduling.Conflicts.{detect_hard_conflicts}
use onwlms.Scheduling.Context.{ConstraintContext}
use onwlms.Scheduling.Feasible.{Compatible, Feasible, detect_hard_conflicts_iff}
use onwlms.Scheduling.Replaced.{
  by_id_source, prepare_each-Pointwise, prepare_one_free, prepare_one_locked, prepare_one_new,
}
use onwlms.Scheduling.Replacement.{
  by_id, locked_ids, prepare_each, prepare_generated_replacement, prepare_one,
}
use onwlms.Scheduling.Repository.{
  SessionTable, all_conflicts, has_conflicts, of_tenant, prepare_replacement, put_sessions,
  replaced_table, without_tenant,
}
use onwlms.Scheduling.Sessions.{ScheduledSession}

put_sessions-source :
    (org : Uuid) (ps : List ScheduledSession) (t : SessionTable) (o i : Uuid) (s : ScheduledSession)
    → lookup (o, i) (put_sessions org ps t) ≡ some s
    → ((o ≡ org) × (s.id ≡ i) × Member s ps) ⊎ (lookup (o, i) t ≡ some s)
put_sessions-source org [] t o i s h = inr h
put_sessions-source org (p ∷ ps) t o i s h =
    elim (put_sessions-source org ps (insert (org, p.id) p t) o i s h) [
      | inl (same, key, m) ↦ inl (same, key, inr m)
      | inr old ↦ elim (lookup-insert-cases (org, p.id) (o, i) p s t old) [
        | inl (key, e) ↦
            inl (ap (λ k. k.0) key, ap (λ s. s.id) e ∙ sym (ap (λ k. k.1) key), inl (sym e))
        | inr (_, older) ↦ inr older
      ]
    ]

without_tenant-source :
    (org : Uuid) (t : SessionTable) (o i : Uuid) (s : ScheduledSession)
    → lookup (o, i) (without_tenant org t) ≡ some s
    → (o ≢ org) × (lookup (o, i) t ≡ some s)
unfolding lookup
without_tenant-source org [] o i s h = absurd (ground arith)
without_tenant-source org (((o', i'), s') ∷ t) o i s h =
    ground (arith, without_tenant-source org t o i s, h)

all_conflicts-Feasible :
    (casefold : String → String) (sessions : List ScheduledSession)
    (constraints : ConstraintContext) (candidates : List ScheduledSession)
    → all_conflicts casefold sessions constraints candidates ≡ ok []
    → (s : ScheduledSession) → Member s candidates
    → Feasible casefold s sessions constraints
unfolding all_conflicts
all_conflicts-Feasible casefold sessions constraints [] h s m = elim m [ ]
all_conflicts-Feasible casefold sessions constraints (c ∷ cs) h s m =
    let (here, one, h') = >>=-eq-ok (detect_hard_conflicts casefold c sessions constraints) _ h in
    let (later, others, e) = >>=-eq-ok (all_conflicts casefold sessions constraints cs) _ h' in
    let joined : here ++ later ≡ [] = cc in
    let (free, free') = (append-eq-nil here later).0 joined in
    elim m [
      | inl same ↦
          subst (λ s. Feasible casefold s sessions constraints) same
            ((detect_hard_conflicts_iff casefold c sessions constraints).0 (one ∙ ap ok free))
      | inr m' ↦ all_conflicts-Feasible casefold sessions constraints cs (others ∙ ap ok free') s m'
    ]

module _ (org : Uuid) where
  abbrev OfTenant : ScheduledSession → Type 0
  OfTenant s = s.organization_id ≡ org

  prepare_one-OfTenant :
      (locked : List Uuid) (stored : Dict Uuid ScheduledSession) (p q : ScheduledSession)
      → OfTenant p
      → ((i : Uuid) (c : ScheduledSession) → lookup i stored ≡ some c → OfTenant c)
      → prepare_one locked stored p ≡ ok q
      → OfTenant q
  prepare_one-OfTenant locked stored p q own all h = elim (Option-cases (lookup p.id stored)) [
    | inl e ↦ subst OfTenant (sym (prepare_one_new locked stored p q e h).0) own
    | inr (c, e) ↦ elim (Bool-cases (contains p.id locked)) [
      | inl held ↦
          subst OfTenant (sym (prepare_one_locked locked stored p c q e held h)) (all p.id c e)
      | inr free ↦ ap (λ s. s.organization_id) (prepare_one_free locked stored p c q e free h) ∙ own
    ]
  ]

  guards :
      (current proposed : List ScheduledSession) (asserted : List Uuid) (expected : Dict Uuid ℕ)
      (prepared : List ScheduledSession)
      → prepare_generated_replacement org current proposed asserted expected ≡ ok prepared
      → (any (λ s. not (s.organization_id == org)) proposed ≡ false)
        × (prepare_each (locked_ids current asserted) (by_id current) proposed ≡ ok prepared)
  unfolding prepare_generated_replacement
  guards current proposed asserted expected prepared h = ground (arith, h)

  passed :
      (current proposed : List ScheduledSession) (asserted : List Uuid) (expected : Dict Uuid ℕ)
      (prepared : List ScheduledSession)
      → prepare_generated_replacement org current proposed asserted expected ≡ ok prepared
      → All OfTenant proposed
        × (prepare_each (locked_ids current asserted) (by_id current) proposed ≡ ok prepared)
  passed current proposed asserted expected prepared h =
      let (home, each) = guards current proposed asserted expected prepared h in
      (
        All-mono (λ s e. ground (arith, e, nat_beq_iff s.organization_id org)) proposed
            ((any-false _ proposed).0 home),
        each,
      )

  prepared-OfTenant :
      (current proposed : List ScheduledSession) (asserted : List Uuid) (expected : Dict Uuid ℕ)
      (prepared : List ScheduledSession)
      → ((c : ScheduledSession) → Member c current → OfTenant c)
      → prepare_generated_replacement org current proposed asserted expected ≡ ok prepared
      → (q : ScheduledSession) → Member q prepared
      → OfTenant q
  prepared-OfTenant current proposed asserted expected prepared own h q m =
      let (home, each) = passed current proposed asserted expected prepared h in
      let (p, n, one) = Pointwise-right _ _ _ (prepare_each-Pointwise _ _ _ _ each) q m in
      prepare_one-OfTenant _ _ p q (All_at _ proposed home p n)
        (λ i c e. own c (by_id_source current i c e).0) one

  entry :
      (ps : List ScheduledSession) (t : SessionTable) (o i : Uuid) (s : ScheduledSession)
      → lookup (o, i) (replaced_table org ps t) ≡ some s
      → ((o ≡ org) × (s.id ≡ i) × Member s ps) ⊎ ((o ≢ org) × (lookup (o, i) t ≡ some s))
  entry ps t o i s h = elim (put_sessions-source org ps (without_tenant org t) o i s h) [
    | inl new ↦ inl new
    | inr old ↦ inr (without_tenant-source org t o i s old)
  ]

  swapped-IsBooked :
      (ps : List ScheduledSession) (t : SessionTable)
      → ((s : ScheduledSession) → Member s ps → OfTenant s)
      → ((s s' : ScheduledSession) → Member s ps → Member s' ps → Compatible s s')
      → IsBooked t
      → IsBooked (replaced_table org ps t)
  swapped-IsBooked ps t home apart b = record {
    keyed = λ o i s h. elim (entry ps t o i s h) [
      | inl (same, key, m) ↦ (home s m ∙ sym same, key)
      | inr (_, old) ↦ b.keyed o i s old
    ];
    apart = λ o i i' s s' h h'. elim (entry ps t o i s h) [
      | inl (same, _, m) ↦ elim (entry ps t o i' s' h') [
        | inl (_, _, m') ↦ apart s s' m m'
        | inr (other, _) ↦ absurd (other same)
      ]
      | inr (other, old) ↦ elim (entry ps t o i' s' h') [
        | inl (same, _, _) ↦ absurd (other same)
        | inr (_, old') ↦ b.apart o i i' s s' old old'
      ]
    ];
  }

  pub replaced-KeepsBooked :
      (casefold : String → String) (proposed : List ScheduledSession) (locked : List Uuid)
      (expected : Dict Uuid ℕ) (constraints : ConstraintContext) (t : SessionTable)
      (prepared : List ScheduledSession)
      → prepare_replacement casefold org proposed locked expected constraints t ≡ ok prepared
      → KeepsBooked t (replaced_table org prepared t)
  unfolding prepare_replacement
  replaced-KeepsBooked casefold proposed locked expected constraints t prepared h b =
      let (found, one, h') =
        >>=-eq-ok (prepare_generated_replacement org (of_tenant org t) proposed locked expected) _
          h in
      let (conflicts, two, h2) = >>=-eq-ok (all_conflicts casefold found constraints found) _ h' in
      let (_, passed, e) =
        >>=-eq-ok (raise_if (has_conflicts conflicts) scheduling_conflict) _ h2 in
      let clear = has_conflicts-false conflicts (ground (arith, passed)) in
      let fits = all_conflicts-Feasible casefold found constraints found (two ∙ ap ok clear) in
      let home =
        prepared-OfTenant (of_tenant org t) proposed locked expected found
          (λ c m. (nat_beq_iff c.organization_id org).0 ((Member-filter _ c (values t)).0 m).1)
          one in
      let same : found ≡ prepared = cc in
      subst (λ ps. IsBooked (replaced_table org ps t)) same
        (swapped-IsBooked found t home (λ s s' m m'. All_at _ found (fits s m).apart s' m') b)
