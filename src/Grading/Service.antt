-- ===== src/Grading/Service.antt =====
-- `OfficialGradingService` of backend/src/grading/application/service.py. A method reads and writes
-- the repository, the evidence directory and the audit log of a `GradingWorld`; readings of the
-- clock and new identifiers are its arguments. Ports whose code stands elsewhere are the fields of
-- `GradingPorts`.
pub mod Record
pub mod Revise
pub mod External
use onwlms.Prelude.{
  Bool, List, Option, String, [], contains, if◌then◌else◌, nat_eq, none, not, pair_eq, some,
  string_eq, ℕ, ◌++◌, ◌==◌, ◌||◌, ◌∷◌,
}
use onwlms.Prelude.Int.{ltb_ℤ, pos, pos_part, ℤ}
use onwlms.Core.{
  Result, TenantActorContext, Uuid, authorization, err, grading_rule, not_found, ok, or_raise,
}
use onwlms.Core.Decimal.{Decimal, whole, ◌*d◌}
use onwlms.Core.Exec.{Exec, ask, gets, lift, pure, require, write, ◌>>=◌, ◌>>◌}
use onwlms.Core.Time.{DateTime}
use onwlms.Grading.Grades.{GradeTarget}
use onwlms.Grading.Repository.{Evidence, GradingRepository, get_scale, list_scales, save_scale}
use onwlms.Grading.Scales.{GradingScale, GradingScaleTemplate, build_scale_from_template, kind_eq}

-- The arguments of `record_final_grade_event` and of `record_external_evidence_event`.
pub data GradingEvent : Type 0 where
  final_grade_event : String → Uuid → Uuid → Uuid → String → Bool → String → GradingEvent
  evidence_event : String → Uuid → Uuid → Uuid → String → String → Option String → GradingEvent

-- The directories of the academics package, the guard of a term, which may refuse, whether the
-- audit sink takes an event, `str.casefold`, and `Decimal` of a text.
pub record GradingPorts : Type 0 where
  pub get_grade_target : Uuid → Uuid → Option GradeTarget
  pub get_grade_target_for_participant : Uuid → Uuid → Uuid → Option GradeTarget
  pub is_term_closed : Uuid → Uuid → Bool
  pub hold_grade_write : Uuid → Uuid → Result (Unit {0})
  pub record_event : GradingEvent → Result (Unit {0})
  pub casefold : String → String
  pub decimal : String → Option Decimal

pub record GradingWorld : Type 0 where
  pub repository : GradingRepository
  pub evidence : Evidence
  pub events : List GradingEvent

abbrev pub GradingAction : Type 0 → Type 0
GradingAction A = Exec GradingWorld A

abbrev pub with_repository : GradingWorld → Result GradingRepository → Result GradingWorld
with_repository w (ok r) = ok (record w { repository = r })
with_repository w (err e) = err e

-- A write of the repository, which raises or is done.
abbrev pub store : (GradingRepository → Result GradingRepository) → GradingAction (Unit {0})
store f = write (λ w. with_repository w (f w.repository))

abbrev resolved : GradingWorld → Result Evidence → Result GradingWorld
resolved w (ok e) = ok (record w { evidence = e })
resolved w (err e) = err e

-- A write of the evidence directory.
abbrev pub settle_evidence : (Evidence → Result Evidence) → GradingAction (Unit {0})
settle_evidence f = write (λ w. resolved w (f w.evidence))

abbrev logged : GradingWorld → GradingEvent → Result (Unit {0}) → Result GradingWorld
logged w e (ok _) = ok (record w { events = w.events ++ e ∷ [] })
logged w e (err raised) = err raised

-- An event is logged, or the sink raises.
abbrev pub log_event : GradingPorts → GradingEvent → GradingAction (Unit {0})
log_event ports e = write (λ w. logged w e (ports.record_event e))

abbrev pub grading_scale_manage : String
grading_scale_manage = "grading.scale.manage"

abbrev pub grading_final_record : String
grading_final_record = "grading.final_grade.record"

abbrev pub grading_final_revise : String
grading_final_revise = "grading.final_grade.revise"

abbrev pub grading_closed_term_revise : String
grading_closed_term_revise = "grading.final_grade.revise_closed_term"

abbrev pub grading_transcript_read : String
grading_transcript_read = "grading.transcript.read"

abbrev pub max_grading_admin_page_size : ℕ
max_grading_admin_page_size = 100

abbrev pub external_evidence_rejected_reason_code : String
external_evidence_rejected_reason_code = "rejected_by_reviewer"

-- `_authorize`
abbrev pub authorize_grading : TenantActorContext → String → GradingAction (Unit {0})
authorize_grading context permission =
    require (contains permission context.permissions) authorization

-- `_require_tenant`
abbrev pub require_grading_tenant : TenantActorContext → Uuid → GradingAction (Unit {0})
require_grading_tenant context organization_id =
    require (context.organization_id == organization_id) not_found

unfoldable pub configure_scale :
    GradingPorts → TenantActorContext → GradingScale → GradingAction (Unit {0})
configure_scale ports context scale = do
  authorize_grading context grading_scale_manage
  require_grading_tenant context scale.organization_id
  store (save_scale ports.casefold scale)

unfoldable pub configure_template :
    GradingPorts
    → TenantActorContext
    → Uuid
    → String
    → GradingScaleTemplate
    → GradingAction GradingScale
configure_template ports context scale_id name template = do
  authorize_grading context grading_scale_manage
  scale ←
      lift (build_scale_from_template ports.casefold scale_id context.organization_id name template)
  store (save_scale ports.casefold scale)
  pure scale

unfoldable pub service_get_scale : TenantActorContext → Uuid → GradingAction GradingScale
service_get_scale context scale_id = do
  authorize_grading context grading_scale_manage
  ask (λ w. or_raise (get_scale context.organization_id scale_id w.repository) not_found)

unfoldable pub service_list_scales :
    GradingPorts → TenantActorContext → ℤ → ℤ → GradingAction (List GradingScale)
service_list_scales ports context limit offset = do
  authorize_grading context grading_scale_manage
  require
      (not (
        ltb_ℤ limit (pos 1)
        || ltb_ℤ (pos max_grading_admin_page_size) limit
        || ltb_ℤ offset (pos 0)))
      grading_rule
  gets (λ w.
      list_scales ports.casefold context.organization_id (pos_part limit) (pos_part offset)
        w.repository)

-- `points * credits if points is not None else None`
abbrev pub contribution : Option Decimal → Decimal → Option Decimal
contribution none credits = none
contribution (some points) credits = some (points *d credits)

abbrev pub earned : Bool → Decimal → Decimal
earned passing credits = if passing then credits else whole 0

abbrev pub grade_event : TenantActorContext → Uuid → String → Bool → String → GradingEvent
grade_event context final_grade_id action after_closure outcome =
    final_grade_event action context.organization_id context.subject_id final_grade_id
      context.correlation_id after_closure outcome

abbrev pub resolution_event :
    TenantActorContext → Uuid → String → String → Option String → GradingEvent
resolution_event context evidence_id action outcome reason =
    evidence_event action context.organization_id context.subject_id evidence_id
      context.correlation_id outcome reason

-- What a recording or a revision reads from the clock and from `new_uuid7`.
pub record GradeInputs : Type 0 where
  pub now : DateTime
  pub new_id : Uuid

abbrev pub require_scale : TenantActorContext → Uuid → GradingAction GradingScale
require_scale context scale_id =
    ask (λ w. or_raise (get_scale context.organization_id scale_id w.repository) not_found)
