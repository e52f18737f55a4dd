-- ===== src/Scheduling/Recurrence.antt =====
-- The occurrences of a session: the loop of `ScheduledSession.occurrences` in
-- backend/src/scheduling/domain/models.py.
use mathlib.Core.Path.{subst}
use native.Mathlib.Nat.{le-div_iff_mul-le}
use onwlms.Prelude.{
  Bool-cases, [], arith, if◌then◌else◌, inl, inr, leb, nat_eq, pair_eq, string_eq, suc, sym, zero,
  ℕ, ◌*◌, ◌+◌, ◌/◌, ◌<◌, ◌↔◌, ◌∷◌, ◌≡◌, ◌≤◌,
}
use onwlms.Prelude.Quantifiers.{Member}
use onwlms.Scheduling.Sessions.{ScheduledSession, expand, occurrence_starts, week}
use onwlms.Scheduling.Windows.{RecurrenceRule}

-- An instant of the loop: whole steps after the start, not after the limit.
abbrev pub Occurs : (step until start t : ℕ) → Type 0
Occurs step until start t = (k : ℕ) × (t ≡ start + k * step) × (t ≤ until)

module _ (step until : ℕ) where
  one_later : (start t : ℕ) → Occurs step until (start + step) t → Occurs step until start t
  one_later start t (k, e, le) = (k + 1, grind arith, le)

  -- With fuel for the rounds, the loop yields only whole steps up to the limit.
  pub expand_sound :
      (fuel start t : ℕ) → Member t (expand fuel step until start) → Occurs step until start t
  unfolding expand
  expand_sound zero start t m = elim m [ ]
  expand_sound (suc fuel) start t m =
      let rest = expand_sound fuel (start + step) t in
      elim (Bool-cases (leb start until)) [
        | inl fits ↦
            elim (subst
              (λ b. Member t (if b then start ∷ expand fuel step until (start + step) else [])) fits
              m) [ inl e ↦ (0, omega arith, ground arith) | inr n ↦ one_later start t (rest n) ]
        | inr over ↦ absurd (
            subst (λ b. Member t (if b then start ∷ expand fuel step until (start + step) else []))
              over m)
      ]

  expand-fits :
      (fuel start : ℕ)
      → start ≤ until
      → expand (suc fuel) step until start ≡ start ∷ expand fuel step until (start + step)
  unfolding expand
  expand-fits fuel start h = ground arith

  -- Each of them is yielded while the fuel lasts.
  pub expand_complete :
      (fuel start k : ℕ)
      → k < fuel
      → start + k * step ≤ until
      → Member (start + k * step) (expand fuel step until start)
  expand_complete zero start k lt le = absurd (omega arith)
  expand_complete (suc fuel) start zero lt le =
      subst (Member (start + 0 * step)) (sym (expand-fits fuel start (omega arith)))
        (inl (omega arith))
  expand_complete (suc fuel) start (suc k) lt le =
      subst (Member (start + suc k * step)) (sym (expand-fits fuel start (ground arith))) (
        inr (
          subst (λ t. Member t (expand fuel step until (start + step))) (grind arith)
            (expand_complete fuel (start + step) k (omega arith) (grind arith))))

rounds_enough : {k step n : ℕ} → 0 < step → k * step ≤ n → k < n / step + 1
rounds_enough h le = let quotient = (le-div_iff_mul-le h).1 le in omega arith

-- The starts are exactly the whole steps up to the limit: the fuel of the loop is enough.
pub occurrence_starts_iff :
    (s : ScheduledSession) (r : RecurrenceRule) (t : ℕ)
    → 0 < r.interval_weeks
    → Member t (occurrence_starts s r)
      ↔ Occurs (r.interval_weeks * week) r.until.instant s.starts_at.instant t
unfolding occurrence_starts
occurrence_starts_iff s r t h = (
  λ m. expand_sound step until _ start t m,
  λ (k, e, le).
      subst (λ t. Member t (occurrence_starts s r)) (sym e)
        (expand_complete step until _ start k (rounds_enough (omega arith) (omega arith))
          (ground arith)),
)
  where
    step : ℕ
    step = r.interval_weeks * week

    until : ℕ
    until = r.until.instant

    start : ℕ
    start = s.starts_at.instant
