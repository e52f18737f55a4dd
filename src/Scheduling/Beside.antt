-- ===== src/Scheduling/Beside.antt =====
-- Sessions that can be held beside each other: an order of them does not matter to
-- `detect_hard_conflicts` of backend/src/scheduling/domain/constraints.py.
use mathlib.Core.Path.{subst}
use onwlms.Prelude.{
  All, Bool, List, String, [], arith, inl, inr, is_unique, map, nat_eq, pair_eq, refl, sort,
  string_eq, sym, true, ◌++◌, ◌∷◌, ◌≡◌, ◌≢◌,
}
use onwlms.Prelude.Quantifiers.{
  All-of, All_at, Any-mono, Any-swap, Disjoint, Member, Member-snoc, Member-sort,
}
use onwlms.Prelude.Sums.{contains-Member}
use onwlms.Scheduling.Context.{ConstraintContext, room}
use onwlms.Scheduling.Feasible.{Clash, Compatible, Feasible}
use onwlms.Scheduling.Sessions.{ScheduledSession, occurrences}
use onwlms.Scheduling.Windows.{TimeWindow, overlaps}

overlaps_sym : (v w : TimeWindow) → overlaps v w ≡ true → overlaps w v ≡ true
unfolding overlaps
overlaps_sym v w h = ground arith

pub Clash-sym : (s t : ScheduledSession) → Clash s t → Clash t s
Clash-sym s t h =
    Any-mono (λ r. Any-mono (λ l. overlaps_sym l r) (occurrences s)) (occurrences t)
      (Any-swap (λ l r. overlaps l r ≡ true) (occurrences s) (occurrences t) h)

Disjoint-sym : {A : Type 0} (xs ys : List A) → Disjoint xs ys → Disjoint ys xs
Disjoint-sym xs ys d x m n = d x n m

pub Compatible-sym : (s t : ScheduledSession) → Compatible s t → Compatible t s
Compatible-sym s t c other clash =
    let (room, (teachers, groups)) = c (λ e. other (sym e)) (Clash-sym t s clash) in
    (
      λ e. room (sym e),
      (
        Disjoint-sym s.teacher_ids t.teacher_ids teachers,
        Disjoint-sym s.required_group_ids t.required_group_ids groups,
      ),
    )

pub Compatible-self : (s : ScheduledSession) → Compatible s s
Compatible-self s other clash = absurd (other refl)

module _ (casefold : String → String) (context : ConstraintContext) where
  -- A session is as feasible beside fewer sessions.
  pub Feasible-fewer :
      (s : ScheduledSession) (xs ys : List ScheduledSession)
      → ((t : ScheduledSession) → Member t ys → Member t xs)
      → Feasible casefold s xs context
      → Feasible casefold s ys context
  Feasible-fewer s xs ys sub f = record {
    tenant = f.tenant;
    tenants = All-of _ ys (λ t m. All_at _ xs f.tenants t (sub t m));
    fits = f.fits;
    in_calendar = f.in_calendar;
    staffed = f.staffed;
    apart = All-of _ ys (λ t m. All_at _ xs f.apart t (sub t m));
  }

  Feasible-more :
      (s t : ScheduledSession) (xs : List ScheduledSession)
      → t.organization_id ≡ s.organization_id
      → Compatible s t
      → Feasible casefold s xs context
      → Feasible casefold s (xs ++ t ∷ []) context
  Feasible-more s t xs same c f = record {
    tenant = f.tenant;
    tenants = All-of _ (xs ++ t ∷ []) (λ u m. elim ((Member-snoc u xs t).0 m) [
      | inl old ↦ All_at _ xs f.tenants u old
      | inr e ↦ subst (λ u. u.organization_id ≡ s.organization_id) e same
    ]);
    fits = f.fits;
    in_calendar = f.in_calendar;
    staffed = f.staffed;
    apart = All-of _ (xs ++ t ∷ []) (λ u m. elim ((Member-snoc u xs t).0 m) [
      | inl old ↦ All_at _ xs f.apart u old
      | inr e ↦ subst (Compatible s) e c
    ]);
  }

  -- Each session of a list can be held beside the others.
  abbrev pub Harmonious : List ScheduledSession → Type 0
  Harmonious xs = (s : ScheduledSession) → Member s xs → Feasible casefold s xs context

  -- A session that is feasible beside such a list makes it one longer.
  pub Harmonious-snoc :
      (xs : List ScheduledSession) (t : ScheduledSession)
      → Harmonious xs
      → Feasible casefold t xs context
      → Harmonious (xs ++ t ∷ [])
  Harmonious-snoc xs t h f s m = elim ((Member-snoc s xs t).0 m) [
    | inl old ↦
        Feasible-more s t xs (sym (All_at _ xs f.tenants s old))
          (Compatible-sym t s (All_at _ xs f.apart s old)) (h s old)
    | inr e ↦
        subst (λ s. Feasible casefold s (xs ++ t ∷ []) context) e
          (Feasible-more t t xs refl (Compatible-self t) f)
  ]

  -- The order does not matter.
  pub Harmonious-sort :
      (below : ScheduledSession → ScheduledSession → Bool) (xs : List ScheduledSession)
      → Harmonious xs
      → Harmonious (sort below xs)
  Harmonious-sort below xs h s m =
      Feasible-fewer s xs (sort below xs) (λ t n. (Member-sort below t xs).0 n)
        (h s ((Member-sort below s xs).0 m))

-- The two do not overlap, or have no room, no teacher and no required group in common.
abbrev pub Unshared : ScheduledSession → ScheduledSession → Type 0
Unshared s t =
    Clash s t
    → (t.room_id ≢ s.room_id)
      × (Disjoint s.teacher_ids t.teacher_ids × Disjoint s.required_group_ids t.required_group_ids)

-- Each entry of the list with each later one, whatever their identifiers are.
abbrev pub NothingTwice : List ScheduledSession → Type 0
NothingTwice [] = Unit {0}
NothingTwice (s ∷ ss) = All (Unshared s) ss × NothingTwice ss

pub Compatible-NothingTwice :
    (xs : List ScheduledSession)
    → ((s t : ScheduledSession) → Member s xs → Member t xs → Compatible s t)
    → is_unique (map (λ (s : ScheduledSession). s.id) xs) ≡ true
    → NothingTwice xs
Compatible-NothingTwice [] f h = tt
Compatible-NothingTwice (s ∷ ss) f h = (
  All-of (Unshared s) ss (λ t m.
      f s t (inl refl) (inr m)
        (λ same. ground (arith, h, same, contains-Member (λ (s : ScheduledSession). s.id) t ss m))),
  Compatible-NothingTwice ss (λ s t m n. f s t (inr m) (inr n)) (ground (arith, h)),
)
