-- ===== src/Tables.antt =====
-- The rows of one tenant's tables that the transactions of src/platform read and write.
-- A time is in microseconds.
pub mod Decisions
pub mod Letters
use tally_agentic_memory.Prelude.{ℕ, String, Bool, Option, List, is_empty}
use tally_agentic_memory.Prelude.Int.{ℤ}
use tally_agentic_memory.Prelude.Json.{Json}
use tally_agentic_memory.Tables.Decisions.{
  RecommendationRow, DayRow, ReconstructionRow, RuleRow, Approval, DecisionSeal, QueryLog,
}
use tally_agentic_memory.Tables.Letters.{Draft, SendAttempt, GateRun}
use tally_agentic_memory.Intake.{IntakeState, AggregateStatus, TaskState, TaskType}

pub record StoredInvoiceSource : Type 0 where
  pub bucket_ref_private : String
  pub object_key_private : String
  pub version_id_private : String
  pub sha256 : String
  pub byte_length : ℕ

-- A row of `invoice_sources`.
pub record Source : Type 0 where
  pub id : String
  pub invoice_id : String
  pub source_type : String
  pub display_filename : String
  pub mime_type : String
  pub stored : StoredInvoiceSource
  pub preservation_status : String
  pub provenance_classification : String
  pub public_disclosure : String
  pub received_at : ℕ

-- A row of `workflow_tasks`.
pub record Task : Type 0 where
  pub id : String
  pub invoice_id : String
  pub task_type : TaskType
  pub task_version : ℕ
  pub state : TaskState
  pub initiated_by : Option String
  pub actor_display : String
  pub knowledge_cutoff_at : ℕ
  pub input_fingerprint : String
  pub input_object_refs : Json
  pub current_attempt : ℕ
  pub lease_owner : Option String
  pub lease_expires_at : Option ℕ
  pub not_before : Option ℕ
  pub started_at : Option ℕ
  pub completed_at : Option ℕ
  pub public_summary : String
  pub private_error_code : Option String
  pub created_at : ℕ
  pub updated_at : ℕ

-- A row of `workflow_task_attempts`.
pub record Attempt : Type 0 where
  pub task_id : String
  pub attempt : ℕ
  pub state : TaskState
  pub lease_owner : String
  pub lease_expires_at : ℕ
  pub started_at : ℕ
  pub completed_at : Option ℕ
  pub private_error_code : Option String

-- A row of `invoices`, with the columns that the intake keeps.
pub record Invoice : Type 0 where
  pub id : String
  pub carrier_id : String
  pub invoice_no : Option String
  pub s3_key : String
  pub sha256 : String
  pub source_version_id : String
  pub display_name : String
  pub received_at : ℕ
  pub intake_state : IntakeState
  pub aggregate_status : String
  pub status : String
  pub status_sequence : ℕ
  pub row_version : ℕ
  pub active_claim_set_version : Option ℕ
  pub updated_at : ℕ

-- A row of `invoice_events`; `event_outbox` has one row for each, with `state` PENDING.
pub record Event : Type 0 where
  pub id : String
  pub invoice_id : String
  pub sequence : ℕ
  pub event_type : String
  pub occurred_at : ℕ
  pub role : String
  pub task : String
  pub tool_display_name : Option String
  pub state : TaskState
  pub aggregate_status : String
  pub summary : String
  pub initiated_by : Option String
  pub actor_display : String
  pub input_object_refs : Json
  pub produced_object_refs : Json
  pub output_count : Option ℕ
  pub public_error : Option Json

pub record Outbox : Type 0 where
  pub invoice_id : String
  pub event_id : String
  pub available_at : ℕ

pub record PdfAnchor : Type 0 where
  pub page_number : ℕ
  pub bounding_box : Json
  pub text_excerpt : String
  pub text_excerpt_sha256 : String

pub record ValidatedClaim : Type 0 where
  pub field_name : String
  pub value_type : String
  pub raw_value : String
  pub normalized_value : Json
  pub amount_minor : Option ℤ
  pub currency : Option String
  pub anchor : PdfAnchor

pub record ClaimValidation : Type 0 where
  pub claims : List ValidatedClaim
  pub issue_codes : List String

-- `ClaimValidation.passed`
unfoldable pub passed : ClaimValidation → Bool
passed validation = is_empty validation.issue_codes

-- A row of `extraction_runs`; `passed` stands for its `validation_state`.
pub record ExtractionRun : Type 0 where
  pub id : String
  pub invoice_id : String
  pub source_id : String
  pub source_sha256 : String
  pub source_version_ref_private : String
  pub model_id : String
  pub schema_version : String
  pub template_version : String
  pub attempt : ℕ
  pub requested_at : ℕ
  pub responded_at : ℕ
  pub provider_request_ref_private : Option String
  pub raw_response_sha256 : String
  pub validated : Bool
  pub issue_codes : List String

-- A row of `claim_sets`.
pub record ClaimSet : Type 0 where
  pub id : String
  pub invoice_id : String
  pub claim_set_version : ℕ
  pub extraction_run_id : String
  pub validated : Bool
  pub issue_codes : List String

pub record RetryResult : Type 0 where
  pub task_id : String
  pub task_version : ℕ
  pub row_version : ℕ
  pub replay : Bool

-- A row of `workflow_retry_requests`: the snapshot is there once it is COMPLETED.
pub record RetryRequest : Type 0 where
  pub idempotency_key : String
  pub invoice_id : String
  pub request_hash : String
  pub response_snapshot : Option RetryResult

-- A row of `ingestion_requests`. The source is there once it was stored, and the snapshot once the
-- request is COMPLETED.
pub record IngestionRequest : Type 0 where
  pub idempotency_key : String
  pub request_hash : String
  pub state : String
  pub initiated_by : Option String
  pub actor_display : String
  pub reserved_invoice_id : String
  pub reserved_source_id : String
  pub stored_source : Option StoredInvoiceSource
  pub response_snapshot : Option Json
  pub deduplicated_invoice_id : Option String
  pub deduplicated_source_id : Option String

pub record Db : Type 0 where
  pub tasks : List Task
  pub attempts : List Attempt
  pub invoices : List Invoice
  pub sources : List Source
  pub events : List Event
  pub outbox : List Outbox
  pub extraction_runs : List ExtractionRun
  pub claim_sets : List ClaimSet
  pub extracted_claims : List (String × ValidatedClaim)
  pub retry_requests : List RetryRequest
  pub recommendations : List RecommendationRow
  pub charged_day_judgments : List DayRow
  pub reconstructions : List ReconstructionRow
  pub applicable_rules : List RuleRow
  pub approvals : List Approval
  pub decision_seals : List DecisionSeal
  pub query_log : List QueryLog
  pub correspondence_drafts : List Draft
  pub send_attempts : List SendAttempt
  pub send_gate_runs : List GateRun
  pub ingestion_requests : List IngestionRequest

pub record ExtractionTaskLease : Type 0 where
  pub task_id : String
  pub invoice_id : String
  pub source_id : String
  pub attempt : ℕ
  pub worker_id : String
  pub lease_expires_at : ℕ
  pub knowledge_cutoff_at : ℕ
  pub source : StoredInvoiceSource
  pub initiated_by : Option String
  pub actor_display : String

pub record ExtractionCompletion : Type 0 where
  pub extraction_run_id : String
  pub claim_set_id : String
  pub claim_set_version : ℕ
  pub reconstruction_task_id : Option String
  pub status : AggregateStatus
