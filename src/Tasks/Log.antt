-- ===== src/Tasks/Log.antt =====
-- What each transaction does to the invoices and their events.
use tally_agentic_memory.Prelude.{
  ℕ, ◌+◌, ◌≡◌, refl, inl, inr, String, Bool, true, false, Option, none, some, arith, Bool-cases,
  Option-cases,
}
use tally_agentic_memory.Prelude.Python.{Python}
use tally_agentic_memory.Prelude.Int.{pos}
use tally_agentic_memory.Prelude.Result.{ok}
use tally_agentic_memory.Intake.{
  IntakeState, AggregateStatus, status_value, TaskState, project_aggregate_status,
  ready_for_reconstruction, required_field_missing, reconstructing, needs_evidence,
}
use tally_agentic_memory.Tables.{
  Task, Attempt, Source, Db, ExtractionTaskLease, ExtractionCompletion, ClaimValidation,
  RetryResult,
}
use tally_agentic_memory.Store.{
  invoice_of, assert_current_lease, lock_invoice_and_advance, insert_event,
}
use tally_agentic_memory.Tasks.Claim.{claim_row, extraction_started}
use tally_agentic_memory.Tasks.Fail.{
  fail_extraction, extraction_ended, failed_intake_state, failed_status, will_retry,
}
use tally_agentic_memory.Tasks.Complete.{Ids, hand_over, recorded, claims_event, started_event}
use tally_agentic_memory.Tasks.Retry.{
  RetryCall, retry_extraction_task, retry_failed, retry_event, reserved, previous_of,
}
use tally_agentic_memory.Events.Numbering.{invoice_at}
use tally_agentic_memory.Events.Log.{Logs, quiet, one, two, ProjectsTo}

pub claim_row-Logs :
    (worker : String) (secs : ℕ) (event : String) (now : ℕ) (w : Task) (s : Source) (db : Db)
    (lease : ExtractionTaskLease) (db' : Db)
    → claim_row worker secs event now w s db ≡ ok (lease, db')
    → Logs ProjectsTo db db'
unfolding claim_row lock_invoice_and_advance insert_event extraction_started
    project_aggregate_status invoice_of
claim_row-Logs worker secs event now w s db lease db' h =
    elim (Option-cases (invoice_at w.invoice_id db.invoices)) [
      | inl e ↦ absurd (ground (arith, h, e))
      | inr (i, e) ↦
          one w.invoice_id IntakeState.initial_processing
            (status_value AggregateStatus.initial_processing) now none i
            (extraction_started event now w s (i.status_sequence + 1)) e refl refl refl
            (ground (arith, h, e)) (ground (arith, h, e))
    ]

failed-projects :
    (r : Bool) (code : String)
    → status_value (failed_status r)
      ≡ status_value (project_aggregate_status (failed_intake_state r code) false)
unfolding failed_status failed_intake_state project_aggregate_status
failed-projects r code = ground arith

pub fail-Logs :
    (lease : ExtractionTaskLease) (code : String) (retryable : Bool) (event : String) (now : ℕ)
    (db : Db) (state : TaskState) (db' : Db)
    → fail_extraction lease code retryable event now db ≡ ok (state, db')
    → Logs ProjectsTo db db'
unfolding fail_extraction lock_invoice_and_advance insert_event extraction_ended invoice_of
fail-Logs lease code retryable event now db state db' h =
    let r = will_retry lease retryable in
    elim (Option-cases (invoice_at lease.invoice_id db.invoices)) [
      | inl e ↦ absurd (ground (arith, h, e))
      | inr (i, e) ↦ elim (Bool-cases (assert_current_lease db lease)) [
        | inl c ↦
            one lease.invoice_id (failed_intake_state r code) (status_value (failed_status r)) now
              none i (extraction_ended lease r event now (i.status_sequence + 1)) e
              (failed-projects r code) refl refl (ground (arith, h, e, c)) (ground (arith, h, e, c))
        | inr c ↦ absurd (ground (arith, h, c))
      ]
    ]

pub retry-Logs :
    (python : Python) (call : RetryCall) (task_id event : String) (now : ℕ) (db : Db)
    (r : RetryResult) (db' : Db)
    → retry_extraction_task python call task_id event now db ≡ ok (r, db')
    → Logs ProjectsTo db db'
unfolding retry_extraction_task retry_failed lock_invoice_and_advance insert_event invoice_of
    retry_event project_aggregate_status
retry-Logs python call task_id event now db r db' h =
    let request = reserved python call db in
    elim (Option-cases request.response_snapshot) [
      | inr (q, j) ↦ quiet (ground (arith, h, j)) (ground (arith, h, j))
      | inl j ↦ elim (Option-cases (previous_of call.invoice_id db.tasks)) [
        | inl p ↦ absurd (ground (arith, h, j, p))
        | inr (w, p) ↦ elim (Option-cases (invoice_at call.invoice_id db.invoices)) [
          | inl e ↦ absurd (ground (arith, h, j, e))
          | inr (i, e) ↦
              one call.invoice_id IntakeState.received (status_value AggregateStatus.received) now
                none i (retry_event call task_id event w now (i.status_sequence + 1)) e refl refl
                refl (ground (arith, h, j, p, e)) (ground (arith, h, j, p, e))
        ]
      ]
    ]

pub hand_over-Logs :
    (python : Python) (ids : Ids) (lease : ExtractionTaskLease) (v : ClaimValidation)
    (now version : ℕ) (b : Bool) (db : Db) (c : ExtractionCompletion) (db' : Db)
    → hand_over python ids lease v now version b db ≡ some (c, db')
    → Logs ProjectsTo db db'
unfolding hand_over lock_invoice_and_advance insert_event invoice_of project_aggregate_status
    claims_event started_event
hand_over-Logs python ids lease v now version true db c db' h =
    elim (Option-cases (invoice_at lease.invoice_id db.invoices)) [
      | inl e ↦ absurd (ground (arith, h, e))
      | inr (i, e) ↦
          two lease.invoice_id ready_for_reconstruction (status_value reconstructing) now
            (some version) i
            (claims_event python ids lease v now version (λ n. python.decimal (pos n)) true
              (i.status_sequence + 1))
            (started_event python ids lease v now version (i.status_sequence + 2)) e refl refl refl
            refl refl (ground (arith, h, e)) (ground (arith, h, e))
    ]
hand_over-Logs python ids lease v now version false db c db' h =
    elim (Option-cases (invoice_at lease.invoice_id db.invoices)) [
      | inl e ↦ absurd (ground (arith, h, e))
      | inr (i, e) ↦
          one lease.invoice_id required_field_missing (status_value needs_evidence) now
            (some version) i
            (claims_event python ids lease v now version (λ n. python.decimal (pos n)) false
              (i.status_sequence + 1))
            e refl refl refl (ground (arith, h, e)) (ground (arith, h, e))
    ]

-- The written rows leave the invoices and the events alone.
pub Logs-recorded :
    (python : Python) (ids : Ids) (lease : ExtractionTaskLease) (v : ClaimValidation)
    (now version : ℕ) (ref : Option String) (raw : String) (s : Source) (a : Attempt) (db db' : Db)
    → Logs ProjectsTo (recorded python ids lease v now version ref raw s a db) db'
    → Logs ProjectsTo db db'
unfolding recorded
Logs-recorded python ids lease v now version ref raw s a db db' (quiet h k) = quiet h k
Logs-recorded python ids lease v now version ref raw s a db db' (one id t b m c i e f p q n h k) =
    one id t b m c i e f p q n h k
Logs-recorded python ids lease v now version ref raw s a db db'
      (two id t b l c i d e f p q r m n h k) =
    two id t b l c i d e f p q r m n h k
