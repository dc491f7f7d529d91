-- ===== src/Intake.antt =====
-- src/core/intake.py: the states of an invoice's intake, their transitions and their projection.
pub mod Envelope
mod Tests
use tally_agentic_memory.Prelude.{String, Bool, true, false, [], ◌∷◌, if◌then◌else◌}
use tally_agentic_memory.Prelude.Json.{Json, field, end}
use tally_agentic_memory.Prelude.Python.{Python, concat}
use tally_agentic_memory.Prelude.Result.{Result, ok, err}

pub data IntakeState : Type 0 where
  received initial_processing claims_extracted ready_for_reconstruction : IntakeState
  unsupported_file unreadable extraction_failed required_field_missing : IntakeState
  blocked_source_version_unavailable : IntakeState

pub data AggregateStatus : Type 0 where
  received initial_processing reconstructing needs_evidence blocked : AggregateStatus

pub data TaskState : Type 0 where
  pending leased running completed retry_wait blocked failed : TaskState

pub data TaskType : Type 0 where
  preserve_invoice_source extract_invoice_claims validate_invoice_claims : TaskType
  start_reconstruction find_applicable_rule judge_days bind_access_evidence : TaskType

-- `IntakeState.value`
abbrev pub state_value : IntakeState → String
state_value s = elim s [
  | received ↦ "RECEIVED"
  | initial_processing ↦ "INITIAL_PROCESSING"
  | claims_extracted ↦ "CLAIMS_EXTRACTED"
  | ready_for_reconstruction ↦ "READY_FOR_RECONSTRUCTION"
  | unsupported_file ↦ "UNSUPPORTED_FILE"
  | unreadable ↦ "UNREADABLE"
  | extraction_failed ↦ "EXTRACTION_FAILED"
  | required_field_missing ↦ "REQUIRED_FIELD_MISSING"
  | blocked_source_version_unavailable ↦ "BLOCKED_SOURCE_VERSION_UNAVAILABLE"
]

-- `AggregateStatus.value`
abbrev pub status_value : AggregateStatus → String
status_value s = elim s [
  | received ↦ "RECEIVED"
  | initial_processing ↦ "INITIAL_PROCESSING"
  | reconstructing ↦ "RECONSTRUCTING"
  | needs_evidence ↦ "NEEDS_EVIDENCE"
  | blocked ↦ "BLOCKED"
]

-- `TaskType.value`
abbrev pub task_type_value : TaskType → String
task_type_value t = elim t [
  | preserve_invoice_source ↦ "PRESERVE_INVOICE_SOURCE"
  | extract_invoice_claims ↦ "EXTRACT_INVOICE_CLAIMS"
  | validate_invoice_claims ↦ "VALIDATE_INVOICE_CLAIMS"
  | start_reconstruction ↦ "START_RECONSTRUCTION"
  | find_applicable_rule ↦ "FIND_APPLICABLE_RULE"
  | judge_days ↦ "JUDGE_DAYS"
  | bind_access_evidence ↦ "BIND_ACCESS_EVIDENCE"
]

-- `_ALLOWED_TRANSITIONS`: whether the second state is in the set of the first.
unfoldable pub allowed : IntakeState → IntakeState → Bool
allowed IntakeState.received IntakeState.initial_processing = true
allowed IntakeState.received unsupported_file = true
allowed IntakeState.received blocked_source_version_unavailable = true
allowed IntakeState.initial_processing claims_extracted = true
allowed IntakeState.initial_processing unreadable = true
allowed IntakeState.initial_processing extraction_failed = true
allowed IntakeState.initial_processing blocked_source_version_unavailable = true
allowed claims_extracted ready_for_reconstruction = true
allowed claims_extracted required_field_missing = true
allowed claims_extracted blocked_source_version_unavailable = true
allowed ready_for_reconstruction blocked_source_version_unavailable = true
allowed _ _ = false

unfoldable pub require_transition : IntakeState → IntakeState → Result {0} String Unit
require_transition current target =
    if allowed current target
    then ok tt
    else err (
        concat ("INVALID_INTAKE_TRANSITION:" ∷ state_value current ∷ ":" ∷ state_value target ∷ []))

unfoldable pub project_aggregate_status : IntakeState → Bool → AggregateStatus
project_aggregate_status intake_state reconstruction_active =
    if reconstruction_active then reconstructing else elim intake_state [
      | ready_for_reconstruction ↦ reconstructing
      | received ↦ AggregateStatus.received
      | initial_processing ↦ AggregateStatus.initial_processing
      | claims_extracted ↦ AggregateStatus.initial_processing
      | required_field_missing ↦ needs_evidence
      | _ ↦ AggregateStatus.blocked
    ]

unfoldable pub task_input_fingerprint : Python → TaskType → Json → String
task_input_fingerprint python task_type input_refs = python.sha256_json (
    Json.obj (
      field "task_type" (Json.str (task_type_value task_type)) (field "input_refs" input_refs end)))
