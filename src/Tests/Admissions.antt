-- ===== src/Tests/Admissions.antt =====
-- A small intake, for the theorems on backend/src/admissions.
use onwlms.Prelude.{
  Option, String, [], arith, false, nat_eq, none, pair_eq, refl, some, string_eq, true, ℕ, ◌<◌, ◌↔◌,
  ◌∷◌, ◌≡◌, ◌≢◌, ◌≤◌,
}
use onwlms.Prelude.Dict.{insert, lookup}
use onwlms.Prelude.Int.{pos}
use onwlms.Core.{AppError, Result, TenantActorContext, Uuid, err, ok, quota_unavailable}
use onwlms.Core.Exec.{◌>>=◌}
use onwlms.Core.Text.{is_blank}
use onwlms.Core.Time.{DateTime, TzInfo, is_naive}
use onwlms.Admissions.Lifecycle.{
  Lifecycle, Lifecycle-ends, transition_application_iff, transition_table,
}
use onwlms.Admissions.Models.{
  AdmissionQuota, AdmissionsPolicy, Application, DepositRequirement, check_application,
}
use onwlms.Admissions.Repository.{Repository, empty, get_application, get_policy, list_reviews}
use onwlms.Admissions.Repository.Capacity.{decide-within_capacity}
use onwlms.Admissions.Repository.Keyed.{
  WellKeyed, put_applications, put_policies, put_quota_index, put_quotas,
}
use onwlms.Admissions.Repository.Quotas.{decide_with_reservation, get_quota}
use onwlms.Admissions.Repository.Seats.{occupied}
use onwlms.Admissions.Repository.Writes.{Writes, Writes-WellKeyed}
use onwlms.Admissions.Reservation.{
  AdmissionDecision, SeatReservation, check_decision, check_reservation, transition_application,
}
use onwlms.Admissions.Service.{
  Ports, World, admissions_application_submit, admissions_decide, admissions_enroll,
}
use onwlms.Admissions.Service.Audited.{Announced, decide_application-Announced, intent}
use onwlms.Admissions.Service.Decide.{
  DecisionIds, accept, decide_application, decide_loaded, decide_on, missing_or_failed,
  record_decision,
}
use onwlms.Admissions.Service.Intake.{is_final}
use onwlms.Admissions.Service.Progress.{Progress}
use onwlms.Admissions.Service.Progress.Served.{Method, serve_all, serve_all-Progress}
use onwlms.Admissions.Status.{
  AdmissionDecisionOutcome, ApplicationSource, ApplicationStatus, DepositStatus, ReservationStatus,
  allowed_transitions, may_become, reservation_eq, stage_eq, status_eq,
}

abbrev pub at : ℕ → DateTime
at instant = record { instant = instant; tzinfo = TzInfo.offset (pos 0) }

abbrev no_deposit : DepositRequirement
no_deposit = record {
  required = false;
  amount = none;
  currency = none;
  due_at = none;
  external_reference = none;
  status = DepositStatus.not_required;
}

abbrev pub application : Uuid → ApplicationStatus → Application
application id status = record {
  id = id;
  organization_id = 1;
  applicant_profile_id = 20;
  program_id = 2;
  intake_id = 3;
  seat_category = "general";
  source = ApplicationSource.self_submitted;
  status = status;
  created_at = at 100;
  status_changed_at = at 100;
  deposit = no_deposit;
}

abbrev policy : AdmissionsPolicy
policy = record {
  organization_id = 1;
  program_id = 2;
  intake_id = 3;
  required_stages = [];
  deposit_required = false;
  deposit_amount = none;
  deposit_currency = none;
  reservation_duration = pos 1000;
}

abbrev pub quota : AdmissionQuota
quota = record {
  id = 7;
  organization_id = 1;
  program_id = 2;
  intake_id = 3;
  seat_category = "general";
  capacity = 1;
}

-- Two submitted applications for one seat.
abbrev intake : Repository
intake = record empty {
  applications =
      insert (1, 6) (application 6 ApplicationStatus.submitted)
        (insert (1, 5) (application 5 ApplicationStatus.submitted) []);
  policies = insert (1, (2, 3)) policy [];
  quotas = insert (1, 7) quota [];
  quota_index = insert (1, (2, (3, "general"))) 7 [];
}

empty-WellKeyed : WellKeyed empty
unfolding lookup
empty-WellKeyed = record {
  profiles = λ k v e. absurd (ground arith);
  applications = λ k v e. absurd (ground arith);
  documents = λ k v e. absurd (ground arith);
  policies = λ k v e. absurd (ground arith);
  quotas = λ k v e. absurd (ground arith);
  reviews = λ k v e. absurd (ground arith);
  decisions = λ k v e. absurd (ground arith);
  reservations = λ k v e. absurd (ground arith);
  conversions = λ k v e. absurd (ground arith);
}

pub intake-WellKeyed : WellKeyed intake
intake-WellKeyed =
    put_quota_index
      (put_quotas
        (put_policies
          (put_applications
            (put_applications empty-WellKeyed (application 5 ApplicationStatus.submitted))
            (application 6 ApplicationStatus.submitted))
          policy)
        quota)
      _

abbrev same_text : String → String
same_text s = s

abbrev pub ports : Ports
ports = record {
  target_exists = λ o p i. true;
  acceptance_is_open = λ o p i. true;
  is_satisfied = λ o a d. false;
  enroll_accepted_applicant = λ c. ok (record {
    student_id = c.student_profile_id;
    academic_enrollment_id = c.academic_enrollment_id;
  });
  record_audit = λ e. ok tt;
  casefold = same_text;
}

abbrev pub officer : TenantActorContext
officer = record {
  subject_id = 8;
  organization_id = 1;
  membership_id = 9;
  correlation_id = "c";
  permissions = admissions_decide ∷ admissions_enroll ∷ admissions_application_submit ∷ [];
}

abbrev pub world : World
world = record { repository = intake; audit = [] }

abbrev ids : DecisionIds
ids = record { reservation_id = 40; decision_id = 41 }

abbrev pub seat : SeatReservation
seat = record {
  id = 40;
  organization_id = 1;
  quota_id = 7;
  application_id = 5;
  status = ReservationStatus.active;
  reserved_at = at 200;
  expires_at = at 1200;
  consumed_at = none;
  released_at = none;
}

abbrev pub acceptance : AdmissionDecision
acceptance = record {
  id = 41;
  organization_id = 1;
  application_id = 5;
  outcome = AdmissionDecisionOutcome.accepted;
  decided_by = 8;
  decided_at = at 200;
  reason = "fits";
  reservation_id = some 40;
}

-- The repository once the first application has its seat.
abbrev pub accepted : Application
accepted = record (application 5 ApplicationStatus.accepted) { status_changed_at = at 200 }

abbrev pub seated : Repository
seated = record intake {
  applications = insert (1, 5) accepted intake.applications;
  reservations = insert (1, 40) seat [];
  application_reservations = insert (1, 5) 40 [];
  decisions = insert (1, 41) acceptance [];
}

took_seat :
    decide_with_reservation same_text accepted ApplicationStatus.submitted acceptance quota seat
      (at 200)
      intake
    ≡ ok seated
unfolding decide_with_reservation insert lookup occupied
took_seat = refl

decide-within_capacity_example : occupied quota (at 300) seated ≤ 1
decide-within_capacity_example =
    decide-within_capacity same_text accepted ApplicationStatus.submitted acceptance quota seat
      (at 200) (at 300) intake seated took_seat (omega arith)

abbrev outcome {ℓ} : {A : Type ℓ} → Result A → Option AppError
outcome (ok a) = none
outcome (err e) = some e

-- The only seat is taken, so that the other application is refused until the reservation expires.
full :
    outcome
      (decide_application ports officer
        (at 300)
        ids
        6
        AdmissionDecisionOutcome.accepted
        "fits"
        (record { repository = seated; audit = [] })).0
    ≡ some quota_unavailable
unfolding ◌>>=◌ decide_application decide_loaded decide_on accept record_decision insert lookup
    get_application get_policy missing_or_failed list_reviews get_quota check_reservation
    transition_application allowed_transitions check_application check_decision
    decide_with_reservation occupied is_blank
full = refl

decide_application-Announced_example :
    Announced
      (intent officer 5 "fits")
      world
      (decide_application ports officer
        (at 200)
        ids
        5
        AdmissionDecisionOutcome.accepted
        "fits"
        world).1
decide_application-Announced_example =
    decide_application-Announced ports officer (at 200) ids 5 AdmissionDecisionOutcome.accepted
      "fits" world intake-WellKeyed

Writes-WellKeyed_example : WellKeyed seated
Writes-WellKeyed_example =
    Writes-WellKeyed same_text
      (Writes.reserved accepted ApplicationStatus.submitted acceptance quota seat (at 200)
        took_seat)
      intake-WellKeyed

serve_all-Progress_example : Progress world (
    serve_all ports
      ((officer, (at 200, Method.decide ids 5 AdmissionDecisionOutcome.accepted "fits"))
        ∷ (officer, (at 300, Method.decide ids 6 AdmissionDecisionOutcome.rejected "full"))
        ∷ [])
      world)
serve_all-Progress_example =
    serve_all-Progress ports
      ((officer, (at 200, Method.decide ids 5 AdmissionDecisionOutcome.accepted "fits"))
        ∷ (officer, (at 300, Method.decide ids 6 AdmissionDecisionOutcome.rejected "full"))
        ∷ [])
      world

two_steps : Lifecycle ApplicationStatus.draft 2 ApplicationStatus.under_review
unfolding allowed_transitions
two_steps =
    Lifecycle.step ApplicationStatus.under_review
      (Lifecycle.step ApplicationStatus.submitted Lifecycle.start refl) refl

Lifecycle-ends_example :
    (2 ≤ 7) × (0 < 2 → ApplicationStatus.draft ≢ ApplicationStatus.under_review)
Lifecycle-ends_example = Lifecycle-ends two_steps

transition_table_example :
    (may_become ApplicationStatus.accepted ApplicationStatus.enrolled ≡ true
      → is_final ApplicationStatus.accepted ≡ false)
    × (is_final ApplicationStatus.accepted ≡ false
        → may_become ApplicationStatus.accepted ApplicationStatus.withdrawn ≡ true)
    × (may_become ApplicationStatus.accepted ApplicationStatus.enrolled ≡ true
        → ApplicationStatus.accepted ≡ ApplicationStatus.accepted)
transition_table_example = transition_table ApplicationStatus.accepted ApplicationStatus.enrolled

transition_application_iff_example :
    (transition_application
        (application 5 ApplicationStatus.submitted)
        ApplicationStatus.accepted
        (at 200)
      ≡ ok accepted)
    ↔ ((is_naive (at 200) ≡ false)
        × (may_become ApplicationStatus.submitted ApplicationStatus.accepted ≡ true)
        × (is_blank "general" ≡ false)
        × (is_naive (at 100) ≡ false)
        × (accepted ≡ accepted))
transition_application_iff_example =
    transition_application_iff (application 5 ApplicationStatus.submitted) accepted
      ApplicationStatus.accepted (at 200)
