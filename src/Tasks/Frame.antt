-- ===== src/Tasks/Frame.antt =====
-- What the transactions of src/platform/intake_tasks.py leave alone.
use tally_agentic_memory.Prelude.{
  ℕ, ◌≡◌, ap, ◌∙◌, inl, inr, String, Bool, Option, some, arith, Bool-cases, Option-cases,
}
use tally_agentic_memory.Prelude.Python.{Python}
use tally_agentic_memory.Prelude.Result.{ok}
use tally_agentic_memory.Intake.{TaskState}
use tally_agentic_memory.Tables.{
  Task, Source, Db, ExtractionTaskLease, ExtractionCompletion, ClaimValidation, RetryResult, passed,
}
use tally_agentic_memory.Store.{
  invoice_of, assert_current_lease, lock_invoice_and_advance, insert_event,
}
use tally_agentic_memory.Tasks.Claim.{claim_row}
use tally_agentic_memory.Tasks.Fail.{fail_extraction}
use tally_agentic_memory.Tasks.Complete.{
  Ids, complete_extraction, hand_over, recorded, joined, next_claim_set_version,
}
use tally_agentic_memory.Tasks.Retry.{
  RetryCall, retry_extraction_task, retry_failed, reserved, previous_of,
}
use tally_agentic_memory.Tasks.Lease.{claim-row}
use tally_agentic_memory.Tasks.Steps.{Step, claims, fails, completes, retries}

-- The tables of the decisions and of the ingestion are as they were.
abbrev pub Frame : Db → Db → Type 0
Frame db db' =
    (db'.approvals ≡ db.approvals)
    × (db'.decision_seals ≡ db.decision_seals)
    × (db'.recommendations ≡ db.recommendations)
    × (db'.ingestion_requests ≡ db.ingestion_requests)

claim_row-Frame :
    (worker : String) (secs : ℕ) (event : String) (now : ℕ) (w : Task) (s : Source) (db : Db)
    (lease : ExtractionTaskLease) (db' : Db)
    → claim_row worker secs event now w s db ≡ ok (lease, db')
    → Frame db db'
unfolding claim_row lock_invoice_and_advance insert_event
claim_row-Frame worker secs event now w s db lease db' h =
    elim (Option-cases (invoice_of db w.invoice_id)) [
      | inl e ↦ absurd (ground (arith, h, e))
      | inr (i, e) ↦
          (ground (arith, h, e), ground (arith, h, e), ground (arith, h, e), ground (arith, h, e))
    ]

fail-Frame :
    (lease : ExtractionTaskLease) (code : String) (retryable : Bool) (event : String) (now : ℕ)
    (db : Db) (state : TaskState) (db' : Db)
    → fail_extraction lease code retryable event now db ≡ ok (state, db')
    → Frame db db'
unfolding fail_extraction lock_invoice_and_advance insert_event
fail-Frame lease code retryable event now db state db' h =
    elim (Option-cases (invoice_of db lease.invoice_id)) [
      | inl e ↦ absurd (ground (arith, h, e))
      | inr (i, e) ↦ elim (Bool-cases (assert_current_lease db lease)) [
        | inr c ↦ absurd (ground (arith, h, c))
        | inl c ↦ (
          ground (arith, h, e, c),
          ground (arith, h, e, c),
          ground (arith, h, e, c),
          ground (arith, h, e, c),
        )
      ]
    ]

retry-Frame :
    (python : Python) (call : RetryCall) (task_id event : String) (now : ℕ) (db : Db)
    (r : RetryResult) (db' : Db)
    → retry_extraction_task python call task_id event now db ≡ ok (r, db')
    → Frame db db'
unfolding retry_extraction_task retry_failed lock_invoice_and_advance insert_event
retry-Frame python call task_id event now db r db' h =
    let request = reserved python call db in
    elim (Option-cases request.response_snapshot) [
      | inr (q, j) ↦
          (ground (arith, h, j), ground (arith, h, j), ground (arith, h, j), ground (arith, h, j))
      | inl j ↦ elim (Option-cases (previous_of call.invoice_id db.tasks)) [
        | inl p ↦ absurd (ground (arith, h, j, p))
        | inr (w, p) ↦ elim (Option-cases (invoice_of db call.invoice_id)) [
          | inl e ↦ absurd (ground (arith, h, j, e))
          | inr (i, e) ↦ (
            ground (arith, h, j, p, e),
            ground (arith, h, j, p, e),
            ground (arith, h, j, p, e),
            ground (arith, h, j, p, e),
          )
        ]
      ]
    ]

hand_over-Frame :
    (python : Python) (ids : Ids) (lease : ExtractionTaskLease) (v : ClaimValidation)
    (now version : ℕ) (b : Bool) (db : Db) (c : ExtractionCompletion) (db' : Db)
    → hand_over python ids lease v now version b db ≡ some (c, db')
    → Frame db db'
unfolding hand_over lock_invoice_and_advance insert_event
hand_over-Frame python ids lease v now version b db c db' h =
    elim (Option-cases (invoice_of db lease.invoice_id)) [
      | inl e ↦ absurd (ground (arith, h, e))
      | inr (i, e) ↦ elim (Bool-cases b) [
        | inl t ↦ (
          ground (arith, h, e, t),
          ground (arith, h, e, t),
          ground (arith, h, e, t),
          ground (arith, h, e, t),
        )
        | inr t ↦ (
          ground (arith, h, e, t),
          ground (arith, h, e, t),
          ground (arith, h, e, t),
          ground (arith, h, e, t),
        )
      ]
    ]

complete-Frame :
    (python : Python) (ids : Ids) (lease : ExtractionTaskLease) (v : ClaimValidation) (raw : String)
    (ref : Option String) (now : ℕ) (db : Db) (c : ExtractionCompletion) (db' : Db)
    → complete_extraction python ids lease v raw ref now db ≡ ok (c, db')
    → Frame db db'
unfolding complete_extraction recorded
complete-Frame python ids lease v raw ref now db c db' h =
    let version = next_claim_set_version db lease.invoice_id in
    elim (Bool-cases (assert_current_lease db lease)) [
      | inr a ↦ absurd (ground (arith, h, a))
      | inl a ↦ elim (Option-cases (joined db lease)) [
        | inl j ↦ absurd (ground (arith, h, a, j))
        | inr (sa, j) ↦
            let written = recorded python ids lease v now version ref raw sa.0 sa.1 db in
            elim (Option-cases (hand_over python ids lease v now version (passed v) written)) [
              | inl k ↦ absurd (ground (arith, h, a, j, k))
              | inr (q, k) ↦
                  let same : q ≡ (c, db') = ground (arith, h, a, j, k) in
                  hand_over-Frame python ids lease v now version (passed v) written c db'
                    (k ∙ ap some same)
            ]
      ]
    ]

pub Step-Frame : (db db' : Db) → Step db db' → Frame db db'
Step-Frame db db' (claims locked worker secs event now lease d h) =
    let (r, _, row) = claim-row locked worker secs event now db lease db' h in
    claim_row-Frame worker secs event now r.0 r.1 db lease db' row
Step-Frame db db' (fails lease code retryable event now state d h) =
    fail-Frame lease code retryable event now db state db' h
Step-Frame db db' (completes python ids lease v raw ref now c d n h) =
    complete-Frame python ids lease v raw ref now db c db' h
Step-Frame db db' (retries python call task_id event now r d n h) =
    retry-Frame python call task_id event now db r db' h
