-- ===== src/Admissions/Service/Idempotent/Enroll.antt =====
-- A call of `enroll_accepted_application` of backend/src/admissions/application/service.py that
-- returns, and the same call once more.
use mathlib.Core.Path.{subst}
use onwlms.Prelude.{
  Bool, Option, ap, arith, contains, false, if◌then◌else◌, nat_eq, none, pair_eq, refl, some,
  string_eq, sym, true, ◌∙◌, ◌≡◌,
}
use onwlms.Prelude.Dict.{lookup}
use onwlms.Core.{TenantActorContext, Uuid, not_found, ok, or_raise}
use onwlms.Admissions.Models.{Application}
use onwlms.Admissions.Repository.{get_application}
use onwlms.Admissions.Repository.Conversions.{get_conversion_for_application}
use onwlms.Admissions.Repository.Keyed.{WellKeyed}
use onwlms.Admissions.Reservation.{EnrollmentConversion, is_completed}
use onwlms.Admissions.Service.{AcceptedApplicantEnrollmentResult, Ports, World, admissions_enroll}
use onwlms.Admissions.Service.Enroll.{
  EnrollmentInputs, completed_one, enroll_accepted_application, resume,
}
use onwlms.Admissions.Service.Idempotent.{Done, again, ask-ok, at_key, pure-ok, require-ok}
use onwlms.Admissions.Service.Idempotent.Convert.{IsFor, convert-Done, gets-ok}

some-injective : (c d : EnrollmentConversion) → some c ≡ some d → c ≡ d
some-injective c d e = ground (arith, e)

stored_one :
    (context : TenantActorContext) (id : Uuid) (a : Application) (w : World)
    → or_raise (get_application context.organization_id id w.repository) not_found ≡ ok a
    → lookup (context.organization_id, id) w.repository.applications ≡ some a
unfolding get_application
stored_one context id a w got = ground arith

module _ (ports : Ports) (context : TenantActorContext) (inputs : EnrollmentInputs) (id : Uuid)
    (a : Application) (a-org : a.organization_id ≡ context.organization_id) (a-id : a.id ≡ id) where
  resumed_one :
      (c : EnrollmentConversion) (b : Bool) (answer : AcceptedApplicantEnrollmentResult)
      (w w' : World)
      → is_completed c.status ≡ b
      → lookup (context.organization_id, a.id) w.repository.conversions ≡ some c
      → c.organization_id ≡ context.organization_id
      → c.application_id ≡ a.id
      → lookup (context.organization_id, id) w.repository.applications ≡ some a
      → resume ports context inputs a (some c) (if b then some c else none) w ≡ (ok answer, w')
      → Done context.organization_id id answer w'
  unfolding resume
  resumed_one c true answer w w' completed e c-org c-id stored h =
      let (same, end) = pure-ok _ _ _ _ h in
      (
        a,
        sym (ap (λ (w : World). lookup (context.organization_id, id) w.repository.applications) end)
            ∙ stored,
        c,
        sym (
              ap (λ (w : World). lookup (context.organization_id, a.id) w.repository.conversions)
                end)
            ∙ e,
        completed,
        same,
      )
  resumed_one c false answer w w' pending e c-org c-id stored h =
      convert-Done ports context inputs id a a-org a-id (some c) answer w w'
        (at_key w.repository.conversions refl (sym a-id) ∙ e)
        (λ d same.
          subst (IsFor ports context inputs id a a-org a-id) (some-injective c d same)
            (pending, c-org, c-id ∙ a-id))
        stored h

  resume-Done :
      (o : Option EnrollmentConversion) (answer : AcceptedApplicantEnrollmentResult) (w w' : World)
      → WellKeyed w.repository
      → lookup (context.organization_id, a.id) w.repository.conversions ≡ o
      → lookup (context.organization_id, id) w.repository.applications ≡ some a
      → resume ports context inputs a o (completed_one o) w ≡ (ok answer, w')
      → Done context.organization_id id answer w'
  unfolding resume
  resume-Done none answer w w' keyed e stored h =
      convert-Done ports context inputs id a a-org a-id none answer w w'
        (at_key w.repository.conversions refl (sym a-id) ∙ e)
        (λ d same. absurd (ground (arith, same))) stored h
  resume-Done (some c) answer w w' keyed e stored h =
      let key = keyed.conversions (context.organization_id, a.id) c e in
      resumed_one c (is_completed c.status) answer w w' refl e (sym (ap (λ k. k.0) key))
        (sym (ap (λ k. k.1) key)) stored h

-- A call that returns leaves the enrollment complete, with its answer stored.
module _ (ports : Ports) (context : TenantActorContext) (inputs : EnrollmentInputs)
    (id : Uuid) where
  enroll-Done :
      (answer : AcceptedApplicantEnrollmentResult) (w w' : World)
      → WellKeyed w.repository
      → enroll_accepted_application ports context inputs id w ≡ (ok answer, w')
      → Done context.organization_id id answer w'
  unfolding enroll_accepted_application get_conversion_for_application
  enroll-Done answer w w' keyed h =
      let (_, h1) = require-ok _ _ _ w w' answer h in
      let (a, got, h2) = ask-ok _ _ w w' answer h1 in
      let stored = stored_one context id a w got in
      let key = keyed.applications (context.organization_id, id) a stored in
      resume-Done ports context inputs id a (sym (ap (λ k. k.0) key)) (sym (ap (λ k. k.1) key)) _
        answer w w' keyed refl stored (gets-ok _ _ w w' answer h2)

-- A call of `enroll_accepted_application` that returns leaves a state in which every further call
-- for this application, by any permitted member of the organization and whatever the clock, the
-- new ids and the ports give, returns the same answer and changes nothing, if the repository keeps
-- its values under their own keys.
pub enroll_accepted_application_idempotent :
    (ports ports' : Ports) (context context' : TenantActorContext)
    (inputs inputs' : EnrollmentInputs) (id : Uuid) (answer : AcceptedApplicantEnrollmentResult)
    (w w' : World)
    → WellKeyed w.repository
    → enroll_accepted_application ports context inputs id w ≡ (ok answer, w')
    → context'.organization_id ≡ context.organization_id
    → contains admissions_enroll context'.permissions ≡ true
    → enroll_accepted_application ports' context' inputs' id w' ≡ (ok answer, w')
enroll_accepted_application_idempotent ports ports' context context' inputs inputs' id answer w w'
      keyed h same allowed =
    again ports' context' inputs' id answer w' allowed (
      subst (λ o. Done o id answer w') (sym same)
        (enroll-Done ports context inputs id answer w w' keyed h))
