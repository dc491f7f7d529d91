-- ===== src/Tasks/Retry.antt =====
-- src/platform/intake_tasks.py: a person asks for a blocked extraction to be tried again.
use tally_agentic_memory.Prelude.{
  ℕ, ◌+◌, ltb, ◌==◌, String, Bool, true, false, not, ◌&&◌, ◌||◌, Option, none, some, List, [], ◌∷◌,
  ◌++◌, find, str_eq, if◌then◌else◌,
}
use tally_agentic_memory.Prelude.Python.{Python}
use tally_agentic_memory.Prelude.Result.{Result, ok, err}
use tally_agentic_memory.Intake.{
  IntakeState, AggregateStatus, TaskState, status_value, task_type_value, pending,
  extract_invoice_claims, task_input_fingerprint,
}
use tally_agentic_memory.Tables.{Task, Invoice, Event, RetryResult, RetryRequest, Db}
use tally_agentic_memory.Store.{
  invoice_of, lock_invoice_and_advance, insert_event, object_ref, one_ref,
}
use tally_agentic_memory.Tasks.Claim.{is_extraction}

pub record RetryCall : Type 0 where
  pub invoice_id : String
  pub idempotency_key : String
  pub expected_row_version : ℕ
  pub initiated_by : Option String
  pub actor_display : String

unfoldable pub request_hash : Python → RetryCall → String
request_hash python call =
    task_input_fingerprint python extract_invoice_claims
      (one_ref (object_ref "invoice" call.invoice_id call.expected_row_version))

-- The row that `INSERT … ON CONFLICT DO NOTHING` leaves under the key: the one before, or a new one.
unfoldable pub reserved : Python → RetryCall → Db → RetryRequest
unfolding request_hash
reserved python call db =
    elim (find (λ r. str_eq r.idempotency_key call.idempotency_key) db.retry_requests) [
      | some r ↦ r
      | none ↦ record {
        idempotency_key = call.idempotency_key;
        invoice_id = call.invoice_id;
        request_hash = request_hash python call;
        response_snapshot = none;
      }
    ]

-- `ORDER BY task_version DESC LIMIT 1` among the invoice's extraction tasks.
abbrev pub later : Task → Option Task → Option Task
later w none = some w
later w (some v) = if ltb w.task_version v.task_version then some v else some w

unfoldable pub previous_of : String → List Task → Option Task
previous_of invoice_id [] = none
previous_of invoice_id (w ∷ ws) =
    let rest = previous_of invoice_id ws in
    if str_eq w.invoice_id invoice_id && is_extraction w.task_type then later w rest else rest

abbrev pub is_failed : TaskState → Bool
is_failed s = elim s [ TaskState.failed ↦ true | _ ↦ false ]

unfoldable pub retry_task : RetryCall → String → Task → ℕ → Task
retry_task call task_id previous now = record {
  id = task_id;
  invoice_id = call.invoice_id;
  task_type = extract_invoice_claims;
  task_version = previous.task_version + 1;
  state = pending;
  initiated_by = call.initiated_by;
  actor_display = call.actor_display;
  knowledge_cutoff_at = previous.knowledge_cutoff_at;
  input_fingerprint = previous.input_fingerprint;
  input_object_refs = previous.input_object_refs;
  current_attempt = 0;
  lease_owner = none;
  lease_expires_at = none;
  not_before = none;
  started_at = none;
  completed_at = none;
  public_summary = "Waiting to retry carrier claim extraction";
  private_error_code = none;
  created_at = now;
  updated_at = now;
}

unfoldable pub retry_event : RetryCall → String → String → Task → ℕ → ℕ → Event
retry_event call task_id event_id previous now sequence = record {
  id = event_id;
  invoice_id = call.invoice_id;
  sequence = sequence;
  event_type = "intake.retry_requested";
  occurred_at = now;
  role = "INTAKE_AGENT";
  task = task_type_value extract_invoice_claims;
  tool_display_name = none;
  state = pending;
  aggregate_status = status_value AggregateStatus.received;
  summary = "Carrier claim extraction retry requested";
  initiated_by = call.initiated_by;
  actor_display = call.actor_display;
  input_object_refs = previous.input_object_refs;
  produced_object_refs = one_ref (object_ref "workflow_task" task_id (previous.task_version + 1));
  output_count = none;
  public_error = none;
}

-- A request is stored once it is COMPLETED: a transaction that raises leaves no reservation.
abbrev pub remember : Python → RetryCall → RetryResult → Db → Db
remember python call result db = record db {
  retry_requests =
      record {
        idempotency_key = call.idempotency_key;
        invoice_id = call.invoice_id;
        request_hash = request_hash python call;
        response_snapshot = some result;
      }
      ∷ db.retry_requests;
}

unfoldable pub retry_failed :
    Python
    → RetryCall
    → String
    → String
    → ℕ
    → Invoice
    → Task
    → Db
    → Result {0} String (RetryResult × Db)
unfolding retry_task retry_event
retry_failed python call task_id event_id now invoice previous db =
    let result : RetryResult = record {
      task_id = task_id;
      task_version = previous.task_version + 1;
      row_version = invoice.row_version + 1;
      replay = false;
    } in
    let queued : Db = record db { tasks = db.tasks ++ retry_task call task_id previous now ∷ [] } in
    elim (lock_invoice_and_advance call.invoice_id IntakeState.received
      (status_value AggregateStatus.received) 1 now none queued) [
        | none ↦ err "INVOICE_NOT_FOUND"
        | some (sequence, advanced) ↦ ok (
          result,
          remember python call result
              (insert_event (retry_event call task_id event_id previous now sequence) advanced),
        )
      ]

unfoldable pub retry_extraction_task :
    Python → RetryCall → String → String → ℕ → Db → Result {0} String (RetryResult × Db)
unfolding reserved retry_failed previous_of
retry_extraction_task python call task_id event_id now db =
    let request = reserved python call db in
    if not (str_eq request.invoice_id call.invoice_id)
      || not (str_eq request.request_hash (request_hash python call))
    then err "IDEMPOTENCY_CONFLICT"
    else elim request.response_snapshot [
      | some result ↦ ok (record result { replay = true }, db)
      | none ↦ elim (invoice_of db call.invoice_id) [
        | none ↦ err "INVOICE_NOT_FOUND"
        | some invoice ↦
            if not (invoice.row_version == call.expected_row_version)
            then err "STALE_INVOICE_VERSION"
            else elim (previous_of call.invoice_id db.tasks) [
              | none ↦ err "INVALID_STATE"
              | some previous ↦
                  if not (is_failed previous.state)
                  then err "INVALID_STATE"
                  else retry_failed python call task_id event_id now invoice previous db
            ]
      ]
    ]
