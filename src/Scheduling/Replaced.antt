-- ===== src/Scheduling/Replaced.antt =====
-- What a replacement keeps of the timetable that it replaces
-- (backend/src/scheduling/domain/replacement.py).
use mathlib.Core.Path.{subst}
use onwlms.Prelude.{
  Bool-cases, List, Option-cases, [], all, any, ap, arith, contains, false, inl, inr, nat_beq_iff,
  nat_eq, none, pair_eq, some, string_eq, sym, true, ℕ, ◌+◌, ◌∙◌, ◌∷◌, ◌≡◌, ◌⊎◌,
}
use onwlms.Prelude.Dict.{Dict, insert, insert_all, lookup, lookup-insert}
use onwlms.Prelude.Quantifiers.{
  All_at, Member, Pointwise, Pointwise-left, Pointwise-right, any-false, contains_iff,
}
use onwlms.Core.{>>=-eq-ok, Uuid, ok}
use onwlms.Scheduling.Replacement.{
  by_id, differs, is_version, locked_ids, prepare_each, prepare_generated_replacement, prepare_one,
  versions_equal, versions_of,
}
use onwlms.Scheduling.Sessions.{ScheduledSession}

-- A value of `{key(x): x for x in xs}` is one of the members, under its own key.
insert_all_source :
    {V : Type 0} (key : V → Uuid) (xs : List V) (d : Dict Uuid V) (k : Uuid) (v : V)
    → lookup k (insert_all key xs d) ≡ some v
    → (Member v xs × (key v ≡ k)) ⊎ (lookup k d ≡ some v)
insert_all_source key [] d k v h = inr h
insert_all_source key (x ∷ xs) d k v h =
    elim (insert_all_source key xs (insert (key x) x d) k v h) [
      | inl m ↦ inl (inr m.0, m.1)
      | inr e ↦ ground (arith, lookup-insert (key x) k x d)
    ]

pub by_id_source :
    (sessions : List ScheduledSession) (i : Uuid) (s : ScheduledSession)
    → lookup i (by_id sessions) ≡ some s
    → Member s sessions × (s.id ≡ i)
unfolding lookup
by_id_source sessions i s h = elim (insert_all_source (λ s. s.id) sessions [] i s h) [
  | inl m ↦ m
  | inr e ↦ absurd (ground arith)
]

module _ (locked : List Uuid) (current_by_id : Dict Uuid ScheduledSession) where
  pub prepare_each-Pointwise :
      (ps qs : List ScheduledSession)
      → prepare_each locked current_by_id ps ≡ ok qs
      → Pointwise (λ p q. prepare_one locked current_by_id p ≡ ok q) ps qs
  unfolding prepare_each
  prepare_each-Pointwise [] [] h = tt
  prepare_each-Pointwise [] (q ∷ qs) h = absurd (ground arith)
  prepare_each-Pointwise (p ∷ ps) [] h =
      let (q, one, h') = >>=-eq-ok (prepare_one locked current_by_id p) _ h in
      let (rest, later, e) = >>=-eq-ok (prepare_each locked current_by_id ps) _ h' in
      absurd (ground arith)
  prepare_each-Pointwise (p ∷ ps) (q' ∷ qs) h =
      let (q, one, h') = >>=-eq-ok (prepare_one locked current_by_id p) _ h in
      let (rest, later, e) = >>=-eq-ok (prepare_each locked current_by_id ps) _ h' in
      (one ∙ cc, prepare_each-Pointwise ps qs (later ∙ cc))

  -- A locked session is put back as it is stored.
  pub prepare_one_locked :
      (p c q : ScheduledSession)
      → lookup p.id current_by_id ≡ some c
      → contains p.id locked ≡ true
      → prepare_one locked current_by_id p ≡ ok q
      → q ≡ c
  unfolding prepare_one
  prepare_one_locked p c q h l e = ground arith

  pub prepare_one_free :
      (p c q : ScheduledSession)
      → lookup p.id current_by_id ≡ some c
      → contains p.id locked ≡ false
      → prepare_one locked current_by_id p ≡ ok q
      → q ≡ record p { version = c.version + 1 }
  unfolding prepare_one
  prepare_one_free p c q h l e = ground arith

  pub prepare_one_new :
      (p q : ScheduledSession)
      → lookup p.id current_by_id ≡ none
      → prepare_one locked current_by_id p ≡ ok q
      → (q ≡ p) × (q.version ≡ 0)
  unfolding prepare_one
  prepare_one_new p q h e = ground arith

expected_at :
    (expected : Dict Uuid ℕ) (d : Dict Uuid ScheduledSession) (i : Uuid) (c : ScheduledSession)
    → all (λ (k, v). is_version v (lookup k expected)) (versions_of d) ≡ true
    → lookup i d ≡ some c
    → lookup i expected ≡ some c.version
unfolding versions_of lookup
expected_at expected [] i c h e = absurd (ground arith)
expected_at expected ((j, s) ∷ d) i c h e =
    ground (arith, expected_at expected d i c, nat_beq_iff j i)

module _ (organization_id : Uuid) (current proposed : List ScheduledSession) (asserted : List Uuid)
    (expected_versions : Dict Uuid ℕ) (prepared : List ScheduledSession)
    (done : prepare_generated_replacement organization_id current proposed asserted
        expected_versions
      ≡ ok prepared) where
  passed :
      (versions_equal (versions_of (by_id current)) expected_versions ≡ true)
      × (any
            (λ i. differs (lookup i (by_id proposed)) (lookup i (by_id current)))
            (locked_ids current asserted)
          ≡ false)
      × (prepare_each (locked_ids current asserted) (by_id current) proposed ≡ ok prepared)
  unfolding prepare_generated_replacement
  passed = ground (arith, done)

  -- A replacement answers only if each session that is stored has the version that was expected.
  pub expected_versions_met :
      (i : Uuid) (c : ScheduledSession)
      → lookup i (by_id current) ≡ some c
      → lookup i expected_versions ≡ some c.version
  unfolding versions_equal
  expected_versions_met i c h =
      expected_at expected_versions (by_id current) i c (ground (arith, passed.0)) h

  -- Each session that is locked, by its own flag or by the caller, is in the answer as it is stored.
  pub locked_kept :
      (i : Uuid) (c : ScheduledSession)
      → Member i (locked_ids current asserted)
      → lookup i (by_id current) ≡ some c
      → Member c prepared
  unfolding differs
  locked_kept i c m h =
      let same = All_at _ _ ((any-false _ (locked_ids current asserted)).0 passed.1) i m in
      elim (Option-cases (lookup i (by_id proposed))) [
        | inl e ↦ absurd (ground (arith, same, h, e))
        | inr (p, e) ↦
            let (n, key) = by_id_source proposed i p e in
            let (q, m', one) = Pointwise-left _ _ _ (prepare_each-Pointwise _ _ _ _ passed.2) p n in
            let held =
              (contains_iff p.id (locked_ids current asserted)).1
                (subst (λ i. Member i (locked_ids current asserted)) (sym key) m) in
            subst (λ s. Member s prepared)
              (prepare_one_locked _ _ p c q (ap (λ i. lookup i (by_id current)) key ∙ h) held one)
              m'
      ]

  same_entry :
      (i j : Uuid) (d c : ScheduledSession)
      → i ≡ j
      → lookup j (by_id current) ≡ some d
      → lookup i (by_id current) ≡ some c
      → d ≡ c
  same_entry i j d c e h g = cc

  version_of_answer :
      (p q c : ScheduledSession)
      → prepare_one (locked_ids current asserted) (by_id current) p ≡ ok q
      → lookup q.id (by_id current) ≡ some c
      → (Member q.id (locked_ids current asserted) × (q ≡ c)) ⊎ (q.version ≡ c.version + 1)
  version_of_answer p q c one h =
      let locked = locked_ids current asserted in
      elim (Option-cases (lookup p.id (by_id current))) [
        | inl e ↦ absurd (ground (arith, prepare_one_new locked (by_id current) p q e one))
        | inr (d, e) ↦ elim (Bool-cases (contains p.id locked)) [
          | inl held ↦
              let same = prepare_one_locked locked (by_id current) p d q e held one in
              let q-id = ap (λ s. s.id) same ∙ (by_id_source current p.id d e).1 in
              let d-c = same_entry q.id p.id d c q-id e h in
              inl
                ((contains_iff q.id locked).0 (ap (λ i. contains i locked) q-id ∙ held), same ∙ d-c)
          | inr free ↦
              let changed = prepare_one_free locked (by_id current) p d q e free one in
              let d-c = same_entry q.id p.id d c (ap (λ s. s.id) changed) e h in
              inr (ap (λ s. s.version) changed ∙ ap (λ s. s.version + 1) d-c)
        ]
      ]

  -- A session of the answer that is stored already is locked and unchanged, or one version on.
  pub version_advanced :
      (q c : ScheduledSession)
      → Member q prepared
      → lookup q.id (by_id current) ≡ some c
      → (Member q.id (locked_ids current asserted) × (q ≡ c)) ⊎ (q.version ≡ c.version + 1)
  version_advanced q c m h =
      let (p, n, one) = Pointwise-right _ _ _ (prepare_each-Pointwise _ _ _ _ passed.2) q m in
      version_of_answer p q c one h
