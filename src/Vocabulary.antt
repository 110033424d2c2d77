-- ===== src/Vocabulary.antt =====
-- Enumerations and evidence records that several components share, from
-- src/algo_manus/domain/instruments.py, src/algo_manus/domain/research.py and
-- src/algo_manus/domain/execution.py.
use algo_manus.Prelude.{String, Bool, true, false, List, [], ◌∷◌, not, ◌&&◌, ◌||◌, any, is_blank}
use algo_manus.Prelude.Result.{Result, ok, value_error, raise_if, ◌>>◌}
use algo_manus.Prelude.Time.{Datetime}

pub data InstrumentStatus : Type 0 where
  active inactive expired unresolved : InstrumentStatus

-- `InstrumentStatus.value`
unfoldable pub instrument_status_value : InstrumentStatus → String
instrument_status_value InstrumentStatus.active = "ACTIVE"
instrument_status_value InstrumentStatus.inactive = "INACTIVE"
instrument_status_value InstrumentStatus.expired = "EXPIRED"
instrument_status_value InstrumentStatus.unresolved = "UNRESOLVED"

abbrev pub is_active : InstrumentStatus → Bool
is_active InstrumentStatus.active = true
is_active _ = false

pub data DataValidationStatus : Type 0 where
  accepted quarantined rejected : DataValidationStatus

unfoldable pub validation_status_value : DataValidationStatus → String
validation_status_value DataValidationStatus.accepted = "ACCEPTED"
validation_status_value DataValidationStatus.quarantined = "QUARANTINED"
validation_status_value DataValidationStatus.rejected = "REJECTED"

abbrev pub is_accepted : DataValidationStatus → Bool
is_accepted DataValidationStatus.accepted = true
is_accepted _ = false

pub data DataValidationSeverity : Type 0 where
  warning error : DataValidationSeverity

abbrev pub is_error : DataValidationSeverity → Bool
is_error DataValidationSeverity.error = true
is_error DataValidationSeverity.warning = false

pub record DataValidationIssue : Type 0 where
  pub code : String
  pub severity : DataValidationSeverity
  pub message : String

pub record DatasetValidationOutcome : Type 0 where
  pub dataset_id : String
  pub status : DataValidationStatus
  pub policy_version : String
  pub validated_at : Datetime
  pub issues : List DataValidationIssue

-- `any(issue.severity is DataValidationSeverity.ERROR for issue in issues)`
abbrev pub has_error : List DataValidationIssue → Bool
has_error issues = any (λ issue. is_error issue.severity) issues

abbrev pub is_nil {ℓ} : {A : Type ℓ} → List A → Bool
is_nil [] = true
is_nil (_ ∷ _) = false

-- The constructor of `DatasetValidationOutcome` with its `__post_init__`.
unfoldable pub dataset_validation_outcome :
    DatasetValidationOutcome → Result DatasetValidationOutcome
dataset_validation_outcome o = do
  raise_if (is_blank o.dataset_id || is_blank o.policy_version)
      (value_error "dataset ID and validation policy version are required")
  raise_if (not o.validated_at.aware) (value_error "validation timestamp must be timezone-aware")
  raise_if (is_accepted o.status && has_error o.issues)
      (value_error "accepted dataset validation cannot contain error issues")
  raise_if (not (is_accepted o.status) && is_nil o.issues)
      (value_error "quarantined or rejected validation needs one or more issues")
  ok o

pub data ReconciliationDisposition : Type 0 where
  matched corrected unresolved : ReconciliationDisposition

-- `ReconciliationDisposition.value`, and `ReconciliationDisposition(value)`, which raises where
-- this returns `none`.
unfoldable pub disposition_value : ReconciliationDisposition → String
disposition_value ReconciliationDisposition.matched = "MATCHED"
disposition_value ReconciliationDisposition.corrected = "CORRECTED"
disposition_value ReconciliationDisposition.unresolved = "UNRESOLVED"
