-- ===== src/Tasks/Fail.antt =====
-- src/platform/intake_tasks.py: a worker reports that the extraction failed.
use tally_agentic_memory.Prelude.{
  ℕ, ◌+◌, ◌*◌, ◌^◌, ltb, ◌==◌, String, Bool, ◌&&◌, Option, none, some, str_eq, if◌then◌else◌,
}
use tally_agentic_memory.Prelude.Text.{codes, starts_with}
use tally_agentic_memory.Prelude.Result.{Result, ok, err}
use tally_agentic_memory.Intake.{
  IntakeState, extraction_failed, blocked_source_version_unavailable, AggregateStatus, TaskState,
  status_value, task_type_value, retry_wait, extract_invoice_claims,
}
use tally_agentic_memory.Tables.{Task, Attempt, Event, Db, ExtractionTaskLease}
use tally_agentic_memory.Store.{
  update_where, is_owner, assert_current_lease, lock_invoice_and_advance, insert_event, object_ref,
  one_ref, no_refs,
}

abbrev pub max_automatic_attempts : ℕ
max_automatic_attempts = 3

-- The `WHERE` of the two updates that end an attempt.
abbrev pub is_leased : ExtractionTaskLease → Task → Bool
is_leased lease w =
    str_eq w.id lease.task_id
    && (w.current_attempt == lease.attempt && is_owner w.lease_owner lease.worker_id)

abbrev pub is_attempt : ExtractionTaskLease → Attempt → Bool
is_attempt lease a =
    str_eq a.task_id lease.task_id
    && (a.attempt == lease.attempt && str_eq a.lease_owner lease.worker_id)

unfoldable pub will_retry : ExtractionTaskLease → Bool → Bool
will_retry lease retryable = retryable && ltb lease.attempt max_automatic_attempts

unfoldable pub failed_state : Bool → TaskState
failed_state retry = if retry then retry_wait else TaskState.failed

unfoldable pub failed_intake_state : Bool → String → IntakeState
failed_intake_state retry error_code =
    if retry
    then IntakeState.initial_processing
    else if starts_with (codes "SOURCE_") (codes error_code)
    then blocked_source_version_unavailable
    else extraction_failed

unfoldable pub failed_status : Bool → AggregateStatus
failed_status retry = if retry then AggregateStatus.initial_processing else AggregateStatus.blocked

-- The row that the `UPDATE workflow_tasks` leaves.
unfoldable pub ended : TaskState → Option ℕ → String → String → ℕ → Task → Task
ended state not_before error_code summary now w = record w {
  state = state;
  not_before = not_before;
  lease_owner = none;
  lease_expires_at = none;
  private_error_code = some error_code;
  public_summary = summary;
  updated_at = now;
}

unfoldable pub extraction_ended : ExtractionTaskLease → Bool → String → ℕ → ℕ → Event
unfolding failed_state failed_status
extraction_ended lease retry event_id now sequence = record {
  id = event_id;
  invoice_id = lease.invoice_id;
  sequence = sequence;
  event_type = if retry then "intake.extraction_retry_scheduled" else "intake.extraction_blocked";
  occurred_at = now;
  role = "INTAKE_AGENT";
  task = task_type_value extract_invoice_claims;
  tool_display_name = some "Amazon Bedrock";
  state = failed_state retry;
  aggregate_status = status_value (failed_status retry);
  summary =
      if retry
      then "Carrier claim extraction will retry"
      else "Carrier claim extraction is blocked";
  initiated_by = lease.initiated_by;
  actor_display = lease.actor_display;
  input_object_refs = one_ref (object_ref "invoice_source" lease.source_id 1);
  produced_object_refs = no_refs;
  output_count = none;
  public_error = none;
}

-- Its error is `TASK_LEASE_LOST`, or that of `_lock_invoice_and_advance`.
unfoldable pub fail_extraction :
    ExtractionTaskLease → String → Bool → String → ℕ → Db → Result {0} String (TaskState × Db)
unfolding ended will_retry failed_state failed_intake_state failed_status extraction_ended
fail_extraction lease error_code retryable event_id now db =
    let retry = will_retry lease retryable in
    let state = failed_state retry in
    let status = status_value (failed_status retry) in
    let not_before : Option ℕ = if retry then some (now + 2 ^ lease.attempt * 1000000) else none in
    let summary : String = if retry then "Extraction will retry" else "Extraction is blocked" in
    let failed : Db = record db {
      tasks =
          update_where (is_leased lease) (ended state not_before error_code summary now) db.tasks;
      attempts =
          update_where (is_attempt lease)
            (λ a. record a {
              state = state;
              completed_at = some now;
              private_error_code = some error_code;
            })
            db.attempts;
    } in
    if assert_current_lease db lease
    then elim (lock_invoice_and_advance lease.invoice_id (failed_intake_state retry error_code)
        status 1 now none failed) [
          | none ↦ err "INVOICE_NOT_FOUND"
          | some (sequence, advanced) ↦
              ok (state, insert_event (extraction_ended lease retry event_id now sequence) advanced)
        ]
    else err "TASK_LEASE_LOST"
