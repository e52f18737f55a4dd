-- ===== src/Admissions/Models.antt =====
-- The records of backend/src/admissions/domain/models.py. A constructor call of the source runs
-- `__post_init__`: here it is the record passed through its `check_` function, which raises or
-- returns it. `dataclasses.replace` does the same. A `Decimal` is an integer of a fixed small unit.
use onwlms.Prelude.{
  Bool, List, Option, String, false, if◌then◌else◌, is_unique, leb, nat_eq, none, not, pair_eq,
  some, string_eq, true, ℕ, ◌&&◌, ◌==◌, ◌||◌,
}
use onwlms.Prelude.Int.{leb_ℤ, pos, ℤ}
use onwlms.Core.{Result, Uuid, admissions_rule, err, ok, raise_if, ◌>>◌}
use onwlms.Core.Text.{is_blank, is_blank_or_none, is_empty_or_none, text_length}
use onwlms.Core.Time.{DateTime, TimeDelta, require_aware}
use onwlms.Admissions.Status.{
  ApplicationSource, ApplicationStatus, DepositStatus, ReviewOutcome, ReviewStage, reservation_eq,
  stage_eq, status_eq,
}

pub record ApplicantProfile : Type 0 where
  pub id : Uuid
  pub organization_id : Uuid
  pub given_name : String
  pub family_name : String
  pub email : Option String
  pub phone : Option String

unfoldable pub check_profile : ApplicantProfile → Result ApplicantProfile
check_profile p = do
  raise_if (is_blank p.given_name || is_blank p.family_name) admissions_rule
  raise_if (is_empty_or_none p.email && is_empty_or_none p.phone) admissions_rule
  ok p

pub record DepositRequirement : Type 0 where
  pub required : Bool
  pub amount : Option ℤ
  pub currency : Option String
  pub due_at : Option DateTime
  pub external_reference : Option String
  pub status : DepositStatus

abbrev pub is_not_required : DepositStatus → Bool
is_not_required DepositStatus.not_required = true
is_not_required _ = false

-- `amount is None or amount <= Decimal(0)`
abbrev pub is_missing_amount : Option ℤ → Bool
is_missing_amount none = true
is_missing_amount (some a) = leb_ℤ a (pos 0)

abbrev pub require_due_time : Option DateTime → Result (Unit {0})
require_due_time none = err admissions_rule
require_due_time (some t) = require_aware admissions_rule t

unfoldable pub check_deposit : DepositRequirement → Result DepositRequirement
check_deposit d =
    if not d.required
    then (do raise_if (not (is_not_required d.status)) admissions_rule; ok d)
    else do
      raise_if (is_missing_amount d.amount) admissions_rule
      raise_if (is_blank_or_none d.currency) admissions_rule
      require_due_time d.due_at
      ok d

pub record Application : Type 0 where
  pub id : Uuid
  pub organization_id : Uuid
  pub applicant_profile_id : Uuid
  pub program_id : Uuid
  pub intake_id : Uuid
  pub seat_category : String
  pub source : ApplicationSource
  pub status : ApplicationStatus
  pub created_at : DateTime
  pub status_changed_at : DateTime
  pub deposit : DepositRequirement

unfoldable pub check_application : Application → Result Application
check_application a = do
  raise_if (is_blank a.seat_category) admissions_rule
  require_aware admissions_rule a.created_at
  require_aware admissions_rule a.status_changed_at
  ok a

pub record ApplicationDocument : Type 0 where
  pub id : Uuid
  pub organization_id : Uuid
  pub application_id : Uuid
  pub document_type : String
  pub file_reference : String
  pub media_type : String
  pub size_bytes : ℤ
  pub checksum_sha256 : String
  pub uploaded_at : DateTime

unfoldable pub check_document : ApplicationDocument → Result ApplicationDocument
check_document d = do
  raise_if (is_blank d.document_type || is_blank d.file_reference) admissions_rule
  raise_if (is_blank d.media_type || leb_ℤ d.size_bytes (pos 0)) admissions_rule
  raise_if (not (text_length d.checksum_sha256 == 64)) admissions_rule
  require_aware admissions_rule d.uploaded_at
  ok d

abbrev pub is_passed : ReviewOutcome → Bool
is_passed ReviewOutcome.passed = true
is_passed _ = false

pub record ReviewRecord : Type 0 where
  pub id : Uuid
  pub organization_id : Uuid
  pub application_id : Uuid
  pub stage : ReviewStage
  pub outcome : ReviewOutcome
  pub reviewer_id : Uuid
  pub completed_at : DateTime
  pub explanation : Option String

unfoldable pub check_review : ReviewRecord → Result ReviewRecord
check_review r = do
  require_aware admissions_rule r.completed_at
  raise_if (not (is_passed r.outcome) && is_blank_or_none r.explanation) admissions_rule
  ok r

pub record AdmissionsPolicy : Type 0 where
  pub organization_id : Uuid
  pub program_id : Uuid
  pub intake_id : Uuid
  pub required_stages : List ReviewStage
  pub deposit_required : Bool
  pub deposit_amount : Option ℤ
  pub deposit_currency : Option String
  pub reservation_duration : TimeDelta

unfoldable pub check_policy : AdmissionsPolicy → Result AdmissionsPolicy
check_policy p = do
  raise_if (not (is_unique p.required_stages)) admissions_rule
  raise_if (leb_ℤ p.reservation_duration (pos 0)) admissions_rule
  raise_if (p.deposit_required && is_missing_amount p.deposit_amount) admissions_rule
  raise_if (p.deposit_required && is_blank_or_none p.deposit_currency) admissions_rule
  ok p

pub record AdmissionQuota : Type 0 where
  pub id : Uuid
  pub organization_id : Uuid
  pub program_id : Uuid
  pub intake_id : Uuid
  pub seat_category : String
  pub capacity : ℕ

unfoldable pub check_quota : AdmissionQuota → Result AdmissionQuota
check_quota q = do
  raise_if (is_blank q.seat_category) admissions_rule
  raise_if (leb q.capacity 0) admissions_rule
  ok q
