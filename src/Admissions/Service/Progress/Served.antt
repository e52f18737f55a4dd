-- ===== src/Admissions/Service/Progress/Served.antt =====
-- Sequences of requests to `AdmissionsService` of
-- backend/src/admissions/application/service.py.
use onwlms.Prelude.{List, Option, String, [], nat_eq, pair_eq, string_eq, ◌∷◌}
use onwlms.Core.{TenantActorContext, Uuid}
use onwlms.Core.Time.{DateTime}
use onwlms.Admissions.Models.{
  AdmissionQuota, AdmissionsPolicy, ApplicantProfile, ApplicationDocument,
}
use onwlms.Admissions.Service.{Ports, World}
use onwlms.Admissions.Service.Decide.{DecisionIds, decide_application}
use onwlms.Admissions.Service.Enroll.{EnrollmentInputs, enroll_accepted_application}
use onwlms.Admissions.Service.Intake.{
  add_document, record_review, service_create_application, submit_application,
}
use onwlms.Admissions.Service.Progress.{Progress, Progress-same, Progress-trans}
use onwlms.Admissions.Service.Progress.Enroll.{
  create-Progress, document-Progress, enroll-Progress, policy-Progress, quota-Progress,
}
use onwlms.Admissions.Service.Progress.Methods.{
  decide-Progress, record_review-Progress, submit-Progress,
}
use onwlms.Admissions.Service.Reads.{configure_policy, configure_quota}
use onwlms.Admissions.Status.{
  AdmissionDecisionOutcome, ApplicationSource, ReviewOutcome, ReviewStage, reservation_eq, stage_eq,
  status_eq,
}

-- A call of a method of the service that may write.
pub data Method : Type 0 where
  policy : AdmissionsPolicy → Method
  quota : AdmissionQuota → Method
  create : ApplicantProfile → Uuid → Uuid → String → ApplicationSource → Uuid → Method
  submit : Uuid → Method
  document : ApplicationDocument → Method
  review : Uuid → Uuid → ReviewStage → ReviewOutcome → Option String → Method
  decide : DecisionIds → Uuid → AdmissionDecisionOutcome → String → Method
  enroll : EnrollmentInputs → Uuid → Method

-- The world after a request, whether the method returns or raises.
pub serve : Ports → TenantActorContext → DateTime → Method → World → World
serve ports context now (Method.policy p) w = (configure_policy ports context p w).1
serve ports context now (Method.quota q) w = (configure_quota ports context q w).1
serve ports context now (Method.create p program_id intake_id category source id) w =
    (service_create_application ports context now id p program_id intake_id category source w).1
serve ports context now (Method.submit id) w = (submit_application context now id w).1
serve ports context now (Method.document d) w = (add_document context d w).1
serve ports context now (Method.review new_id id stage outcome explanation) w =
    (record_review context now new_id id stage outcome explanation w).1
serve ports context now (Method.decide ids id outcome reason) w =
    (decide_application ports context now ids id outcome reason w).1
serve ports context now (Method.enroll inputs id) w =
    (enroll_accepted_application ports context inputs id w).1

-- Requests of any actors, one after the other, each at its time.
pub serve_all : Ports → List (TenantActorContext × (DateTime × Method)) → World → World
serve_all ports [] w = w
serve_all ports ((context, (now, m)) ∷ rest) w = serve_all ports rest (serve ports context now m w)

serve-Progress :
    (ports : Ports) (context : TenantActorContext) (now : DateTime) (m : Method) (w : World)
    → Progress w (serve ports context now m w)
unfolding serve
serve-Progress ports context now (Method.policy p) w = (policy-Progress ports context p).at w
serve-Progress ports context now (Method.quota q) w = (quota-Progress ports context q).at w
serve-Progress ports context now (Method.create p program_id intake_id category source id) w =
    (create-Progress ports context now id p program_id intake_id category source).at w
serve-Progress ports context now (Method.submit id) w = (submit-Progress context now id).at w
serve-Progress ports context now (Method.document d) w = (document-Progress ports context d).at w
serve-Progress ports context now (Method.review new_id id stage outcome explanation) w =
    (record_review-Progress context now new_id id stage outcome explanation).at w
serve-Progress ports context now (Method.decide ids id outcome reason) w =
    (decide-Progress ports context now ids id outcome reason).at w
serve-Progress ports context now (Method.enroll inputs id) w =
    (enroll-Progress ports context inputs id).at w

-- Whatever requests are served, by whatever actors and whether they succeed or raise: no stored
-- application is lost, one that is new began as a draft, and each status has moved along the
-- lifecycle only.
pub serve_all-Progress :
    (ports : Ports) (requests : List (TenantActorContext × (DateTime × Method))) (w : World)
    → Progress w (serve_all ports requests w)
unfolding serve_all
serve_all-Progress ports [] w = Progress-same w
serve_all-Progress ports ((context, (now, m)) ∷ rest) w =
    Progress-trans w (serve ports context now m w)
      (serve_all ports rest (serve ports context now m w)) (serve-Progress ports context now m w)
      (serve_all-Progress ports rest (serve ports context now m w))
