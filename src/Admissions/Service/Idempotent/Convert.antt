-- ===== src/Admissions/Service/Idempotent/Convert.antt =====
-- The steps of `enroll_accepted_application` of backend/src/admissions/application/service.py for an
-- application whose conversion is not complete.
use onwlms.Prelude.{
  Bool, Option, ap, arith, false, if◌then◌else◌, nat_eq, none, pair_eq, refl, some, string_eq, sym,
  true, ◌∙◌, ◌≡◌,
}
use onwlms.Prelude.Dict.{insert, lookup}
use onwlms.Core.{Result, TenantActorContext, Uuid, err, ok}
use onwlms.Core.Exec.{continue, gets, pure, ◌>>=◌}
use onwlms.Admissions.Models.{Application}
use onwlms.Admissions.Repository.{Repository}
use onwlms.Admissions.Repository.Conversions.{begin_conversion}
use onwlms.Admissions.Reservation.{EnrollmentConversion, SeatReservation, is_completed}
use onwlms.Admissions.Service.{AcceptedApplicantEnrollmentResult, Action, Ports, World}
use onwlms.Admissions.Service.Enroll.{
  EnrollmentInputs, begin, convert, enroll_with, obtain_conversion,
}
use onwlms.Admissions.Service.Idempotent.{
  Done, at_key, conversion-kept, finish-Done, lift-ok, pure-ok, require-ok,
}

module _ {A B : Type 0} where
  pub gets-ok :
      (g : World → A) (f : A → Action B) (s t : World) (x : B)
      → (gets g >>= f) s ≡ (ok x, t)
      → f (g s) s ≡ (ok x, t)
  unfolding ◌>>=◌
  gets-ok g f s t x h = h

  pure-bind-ok :
      (a : A) (f : A → Action B) (s t : World) (x : B)
      → (pure a >>= f) s ≡ (ok x, t)
      → f a s ≡ (ok x, t)
  unfolding ◌>>=◌
  pure-bind-ok a f s t x h = h

  part-ok :
      (m : Action A) (f : A → Action B) (s t : World) (x : B)
      → (m >>= f) s ≡ (ok x, t)
      → (a : A) × (u : World) × (m s ≡ (ok a, u)) × (f a u ≡ (ok x, t))
  unfolding ◌>>=◌
  part-ok m f s t x h = cases (m s) refl h
    where
      cases :
          (p : Result A × World)
          → m s ≡ p
          → continue p.0 f p.1 ≡ (ok x, t)
          → (a : A) × (u : World) × (m s ≡ (ok a, u)) × (f a u ≡ (ok x, t))
      cases (ok a, u) e h = (a, u, e, h)
      cases (err e', u) e h = absurd (ground (arith, ap (λ p. p.0) h))

if-false :
    {B : Type 0} (b : Bool) (m n : Action B) (s t : World) (x : B)
    → b ≡ false
    → (if b then m else n) s ≡ (ok x, t)
    → n s ≡ (ok x, t)
if-false true m n s t x e h = absurd (ground arith)
if-false false m n s t x e h = h

begin_conversion-new :
    (q : EnrollmentConversion) (r : Repository)
    → lookup (q.organization_id, q.application_id) r.conversions ≡ none
    → begin_conversion q r
      ≡ (q, record r { conversions = insert (q.organization_id, q.application_id) q r.conversions })
unfolding begin_conversion
begin_conversion-new q r e = rw (e, begin_conversion) refl

begin-stores :
    (q : EnrollmentConversion) (w : World)
    → lookup (q.organization_id, q.application_id) w.repository.conversions ≡ none
    → begin q w ≡ (
      ok q,
      record w {
        repository = record w.repository {
          conversions = insert (q.organization_id, q.application_id) q w.repository.conversions;
        };
      },
    )
begin-stores q w e =
    ap (λ (p : EnrollmentConversion × Repository). (ok p.0, record w { repository = p.1 }))
      (begin_conversion-new q w.repository e)

begin-new :
    (q c : EnrollmentConversion) (w u : World)
    → lookup (q.organization_id, q.application_id) w.repository.conversions ≡ none
    → begin q w ≡ (ok c, u)
    → (c ≡ q) × (u.repository.applications ≡ w.repository.applications)
begin-new q c w u e h =
    let both = sym (begin-stores q w e) ∙ h in
    (ground (arith, ap (λ p. p.0) both), sym (ap (λ p. p.1.repository.applications) both))

module _ (ports : Ports) (context : TenantActorContext) (inputs : EnrollmentInputs) (id : Uuid)
    (a : Application) (a-org : a.organization_id ≡ context.organization_id) (a-id : a.id ≡ id) where
  abbrev pub IsFor : EnrollmentConversion → Type 0
  IsFor c =
      (is_completed c.status ≡ false)
      × (c.organization_id ≡ context.organization_id)
      × (c.application_id ≡ id)

  enroll_with-Done :
      (v : SeatReservation) (c : EnrollmentConversion) (answer : AcceptedApplicantEnrollmentResult)
      (w w' : World)
      → IsFor c
      → lookup (context.organization_id, id) w.repository.applications ≡ some a
      → enroll_with ports context inputs a v c w ≡ (ok answer, w')
      → Done context.organization_id id answer w'
  unfolding enroll_with
  enroll_with-Done v c answer w w' (pending, c-org, c-id) stored h =
      let h1 = gets-ok _ _ w w' answer (if-false _ _ _ w w' answer pending h) in
      let (profile, known, h2) = lift-ok _ _ w w' answer h1 in
      let (result, registered, h3) = lift-ok _ _ w w' answer h2 in
      finish-Done ports context inputs id inputs.completed_at a v c result answer w w' c-org c-id
        a-org a-id stored h3

  obtain-IsFor :
      (v : SeatReservation) (c : EnrollmentConversion) (w u : World)
      → lookup (context.organization_id, id) w.repository.conversions ≡ none
      → obtain_conversion ports context inputs a v none w ≡ (ok c, u)
      → IsFor c × (u.repository.applications ≡ w.repository.applications)
  unfolding obtain_conversion
  obtain-IsFor v c w u none_yet h =
      let (held, h0, h1) = lift-ok _ _ w u c h in
      let (_, h2) = require-ok _ _ _ w u c h1 in
      let (_, h3) = require-ok _ _ _ w u c h2 in
      let (requested, checked, h4) = lift-ok _ _ w u c h3 in
      let q = conversion-kept _ requested checked in
      let q-org = ap (λ (c : EnrollmentConversion). c.organization_id) q in
      let q-id = ap (λ (c : EnrollmentConversion). c.application_id) q ∙ a-id in
      let (same, kept) = begin-new requested c w u (at_key _ q-org q-id ∙ none_yet) h4 in
      (
        (
          ap (λ (c : EnrollmentConversion). is_completed c.status) (same ∙ q),
          ap (λ (c : EnrollmentConversion). c.organization_id) same ∙ q-org,
          ap (λ (c : EnrollmentConversion). c.application_id) same ∙ q-id,
        ),
        kept,
      )

  obtained_one :
      (o : Option EnrollmentConversion) (c : EnrollmentConversion) (v : SeatReservation)
      (w u : World)
      → lookup (context.organization_id, id) w.repository.conversions ≡ o
      → ((c : EnrollmentConversion) → o ≡ some c → IsFor c)
      → obtain_conversion ports context inputs a v o w ≡ (ok c, u)
      → IsFor c × (u.repository.applications ≡ w.repository.applications)
  unfolding obtain_conversion
  obtained_one none c v w u e is_for h = obtain-IsFor v c w u e h
  obtained_one (some d) c v w u e is_for h =
      let (same, end) = pure-ok _ _ _ _ h in
      (is_for c (ap (λ c. some c) same), sym (ap (λ (w : World). w.repository.applications) end))

  pub convert-Done :
      (o : Option EnrollmentConversion) (answer : AcceptedApplicantEnrollmentResult) (w w' : World)
      → lookup (context.organization_id, id) w.repository.conversions ≡ o
      → ((c : EnrollmentConversion) → o ≡ some c → IsFor c)
      → lookup (context.organization_id, id) w.repository.applications ≡ some a
      → convert ports context inputs a o w ≡ (ok answer, w')
      → Done context.organization_id id answer w'
  unfolding convert
  convert-Done o answer w w' e is_for stored h =
      let (_, h1) = require-ok _ _ _ w w' answer h in
      let (v, held, h2) = lift-ok _ _ w w' answer (gets-ok _ _ w w' answer h1) in
      let (_, h3) = require-ok _ _ _ w w' answer h2 in
      let (c, u, obtained, h4) = part-ok _ _ w w' answer h3 in
      let (for_it, kept) = obtained_one o c v w u e is_for obtained in
      enroll_with-Done v c answer u w' for_it
        (ap (lookup (context.organization_id, id)) kept ∙ stored) h4
