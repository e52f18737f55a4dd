-- ===== src/Admissions/Status.antt =====
-- The statuses of backend/src/admissions/domain/models.py, and its transition table.
use onwlms.Prelude.{ℕ, ◌≡◌, Bool, List, [], ◌∷◌, arith, Eq, coded_eq, contains}

pub data ApplicationSource : Type 0 where
  self_submitted administrator_entered : ApplicationSource

pub data ApplicationStatus : Type 0 where
  draft submitted awaiting_exam awaiting_interview under_review : ApplicationStatus
  waitlisted accepted rejected enrolled withdrawn : ApplicationStatus

pub data ReviewStage : Type 0 where
  document_review exam interview : ReviewStage

pub data ReviewOutcome : Type 0 where
  passed failed needs_more_information : ReviewOutcome

pub data AdmissionDecisionOutcome : Type 0 where
  accepted rejected waitlisted : AdmissionDecisionOutcome

pub data ReservationStatus : Type 0 where
  active released consumed : ReservationStatus

pub data DepositStatus : Type 0 where
  not_required pending satisfied waived : DepositStatus

pub data EnrollmentConversionStatus : Type 0 where
  pending completed : EnrollmentConversionStatus

-- Identity of enumeration members, through a number for each.
abbrev status_code : ApplicationStatus → ℕ
status_code ApplicationStatus.draft = 0
status_code ApplicationStatus.submitted = 1
status_code ApplicationStatus.awaiting_exam = 2
status_code ApplicationStatus.awaiting_interview = 3
status_code ApplicationStatus.under_review = 4
status_code ApplicationStatus.waitlisted = 5
status_code ApplicationStatus.accepted = 6
status_code ApplicationStatus.rejected = 7
status_code ApplicationStatus.enrolled = 8
status_code ApplicationStatus.withdrawn = 9

pub status_code_injective : (a b : ApplicationStatus) → status_code a ≡ status_code b → a ≡ b
status_code_injective a b h = ground arith

instance abbrev pub status_eq : Eq ApplicationStatus
status_eq = coded_eq status_code status_code_injective

abbrev stage_code : ReviewStage → ℕ
stage_code ReviewStage.document_review = 0
stage_code ReviewStage.exam = 1
stage_code ReviewStage.interview = 2

pub stage_code_injective : (a b : ReviewStage) → stage_code a ≡ stage_code b → a ≡ b
stage_code_injective a b h = ground arith

instance abbrev pub stage_eq : Eq ReviewStage
stage_eq = coded_eq stage_code stage_code_injective

abbrev reservation_code : ReservationStatus → ℕ
reservation_code ReservationStatus.active = 0
reservation_code ReservationStatus.released = 1
reservation_code ReservationStatus.consumed = 2

pub reservation_code_injective :
    (a b : ReservationStatus) → reservation_code a ≡ reservation_code b → a ≡ b
reservation_code_injective a b h = ground arith

instance abbrev pub reservation_eq : Eq ReservationStatus
reservation_eq = coded_eq reservation_code reservation_code_injective

-- `_ALLOWED_TRANSITIONS`
unfoldable pub allowed_transitions : ApplicationStatus → List ApplicationStatus
allowed_transitions ApplicationStatus.draft =
    ApplicationStatus.submitted ∷ ApplicationStatus.withdrawn ∷ []
allowed_transitions ApplicationStatus.submitted =
    ApplicationStatus.awaiting_exam ∷ ApplicationStatus.awaiting_interview
    ∷ ApplicationStatus.under_review ∷ ApplicationStatus.accepted ∷ ApplicationStatus.rejected
    ∷ ApplicationStatus.waitlisted ∷ ApplicationStatus.withdrawn ∷ []
allowed_transitions ApplicationStatus.awaiting_exam =
    ApplicationStatus.awaiting_interview ∷ ApplicationStatus.under_review
    ∷ ApplicationStatus.rejected ∷ ApplicationStatus.withdrawn ∷ []
allowed_transitions ApplicationStatus.awaiting_interview =
    ApplicationStatus.under_review ∷ ApplicationStatus.rejected ∷ ApplicationStatus.withdrawn ∷ []
allowed_transitions ApplicationStatus.under_review =
    ApplicationStatus.accepted ∷ ApplicationStatus.rejected ∷ ApplicationStatus.waitlisted
    ∷ ApplicationStatus.withdrawn ∷ []
allowed_transitions ApplicationStatus.waitlisted =
    ApplicationStatus.accepted ∷ ApplicationStatus.rejected ∷ ApplicationStatus.withdrawn ∷ []
allowed_transitions ApplicationStatus.accepted =
    ApplicationStatus.enrolled ∷ ApplicationStatus.withdrawn ∷ []
allowed_transitions ApplicationStatus.rejected = []
allowed_transitions ApplicationStatus.enrolled = []
allowed_transitions ApplicationStatus.withdrawn = []

-- `target in _ALLOWED_TRANSITIONS[status]`
abbrev pub may_become : ApplicationStatus → ApplicationStatus → Bool
may_become status target = contains target (allowed_transitions status)
