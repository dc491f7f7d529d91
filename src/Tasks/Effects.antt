-- ===== src/Tasks/Effects.antt =====
-- What each transaction does to the tasks, when it succeeds.
use mathlib.Core.Path.{subst}
use tally_agentic_memory.Prelude.{
  ℕ, ◌+◌, ◌*◌, ◌≡◌, ◌⊎◌, refl, sym, ap, ◌∙◌, inl, inr, any, if◌then◌else◌, ◌^◌, String, Bool, true,
  false, Option, none, some, List, [], ◌∷◌, ◌++◌, arith, Bool-cases, Option-cases, str_eq,
}
use tally_agentic_memory.Prelude.Python.{Python}
use tally_agentic_memory.Prelude.Result.{ok}
use tally_agentic_memory.Intake.{IntakeState, TaskState}
use tally_agentic_memory.Tables.{
  Task, Source, Event, Db, ExtractionTaskLease, ExtractionCompletion, ClaimValidation, RetryResult,
  passed,
}
use tally_agentic_memory.Store.{
  update_where, invoice_of, assert_current_lease, lock_invoice_and_advance, insert_event,
}
use tally_agentic_memory.Tasks.Claim.{claimed, claim_row}
use tally_agentic_memory.Tasks.Fail.{is_leased, fail_extraction, ended, failed_state, will_retry}
use tally_agentic_memory.Tasks.Complete.{
  Ids, complete_extraction, joined, next_claim_set_version, completed_task, hand_over, recorded,
  reconstruction_task, insert_new, is_reconstruction_of,
}
use tally_agentic_memory.Tasks.Retry.{
  RetryCall, retry_extraction_task, retry_failed, retry_task, reserved, previous_of,
}

advance-tasks :
    (id : String) (s : IntakeState) (a : String) (k now : ℕ) (c : Option ℕ) (db : Db) (n : ℕ)
    (db' : Db)
    → lock_invoice_and_advance id s a k now c db ≡ some (n, db')
    → db'.tasks ≡ db.tasks
unfolding lock_invoice_and_advance
advance-tasks id s a k now c db n db' h = ground arith

insert_event-tasks : (e : Event) (db : Db) → (insert_event e db).tasks ≡ db.tasks
unfolding insert_event
insert_event-tasks e db = refl

pub claim_row-tasks :
    (worker : String) (secs : ℕ) (event : String) (now : ℕ) (w : Task) (s : Source) (db : Db)
    (lease : ExtractionTaskLease) (db' : Db)
    → claim_row worker secs event now w s db ≡ ok (lease, db')
    → (lease.task_id ≡ w.id)
      × (lease.attempt ≡ w.current_attempt + 1)
      × (db'.tasks
          ≡ update_where
              (λ v. str_eq v.id w.id)
              (claimed worker (w.current_attempt + 1) now (now + secs * 1000000))
              db.tasks)
unfolding claim_row lock_invoice_and_advance insert_event
claim_row-tasks worker secs event now w s db lease db' h =
    elim (Option-cases (invoice_of db w.invoice_id)) [
      | inl e ↦ absurd (ground (arith, h, e))
      | inr e ↦ (ground (arith, h, e.1), ground (arith, h, e.1), ground (arith, h, e.1))
    ]

-- The end of a task that `fail_extraction` writes.
abbrev pub ended_by : ExtractionTaskLease → String → Bool → ℕ → Task → Task
ended_by lease code retryable now =
    let r = will_retry lease retryable in
    ended (failed_state r) (if r then some (now + 2 ^ lease.attempt * 1000000) else none) code
      (if r then "Extraction will retry" else "Extraction is blocked") now

pub fail-tasks :
    (lease : ExtractionTaskLease) (code : String) (retryable : Bool) (event : String) (now : ℕ)
    (db : Db) (state : TaskState) (db' : Db)
    → fail_extraction lease code retryable event now db ≡ ok (state, db')
    → (assert_current_lease db lease ≡ true)
      × (state ≡ failed_state (will_retry lease retryable))
      × (db'.tasks ≡ update_where (is_leased lease) (ended_by lease code retryable now) db.tasks)
unfolding fail_extraction lock_invoice_and_advance insert_event
fail-tasks lease code retryable event now db state db' h =
    elim (Option-cases (invoice_of db lease.invoice_id)) [
      | inl e ↦ absurd (ground (arith, h, e))
      | inr e ↦ elim (Bool-cases (assert_current_lease db lease)) [
        | inl c ↦ (c, ground (arith, h, e.1, c), ground (arith, h, e.1, c))
        | inr c ↦ absurd (ground (arith, h, c))
      ]
    ]

-- The tasks after a completion, but for the new one.
abbrev pub completed_tasks : ExtractionTaskLease → ClaimValidation → ℕ → List Task → List Task
completed_tasks lease validation now =
    update_where (is_leased lease) (completed_task (passed validation) now)

-- A list of tasks, and the same with one more under a new id.
abbrev pub GrownBy : String → List Task → List Task → Type 0
GrownBy id ws us = (us ≡ ws) ⊎ ((w : Task) × (w.id ≡ id) × (us ≡ ws ++ w ∷ []))

insert_new-GrownBy :
    (p : Task → Bool) (w : Task) (ws : List Task) → GrownBy w.id ws (insert_new p w ws)
insert_new-GrownBy p w ws = elim (Bool-cases (any p ws)) [
  | inl e ↦ inl (rw e refl)
  | inr e ↦ inr (w, refl, rw e refl)
]

hand_over-GrownBy :
    (python : Python) (ids : Ids) (lease : ExtractionTaskLease) (v : ClaimValidation)
    (now version : ℕ) (b : Bool) (db : Db) (c : ExtractionCompletion) (db' : Db)
    → hand_over python ids lease v now version b db ≡ some (c, db')
    → GrownBy ids.reconstruction_task db.tasks db'.tasks
unfolding hand_over lock_invoice_and_advance insert_event reconstruction_task
hand_over-GrownBy python ids lease v now version true db c db' h =
    elim (Option-cases (invoice_of db lease.invoice_id)) [
      | inl e ↦ absurd (ground (arith, h, e))
      | inr e ↦
          let w = reconstruction_task python ids lease v now version in
          let same : db'.tasks
              ≡ insert_new (is_reconstruction_of lease.invoice_id w.input_fingerprint) w db.tasks =
            ground (arith, h, e.1) in
          subst (GrownBy ids.reconstruction_task db.tasks) (sym same) (
            insert_new-GrownBy (is_reconstruction_of lease.invoice_id w.input_fingerprint) w
              db.tasks)
    ]
hand_over-GrownBy python ids lease v now version false db c db' h =
    elim (Option-cases (invoice_of db lease.invoice_id)) [
      | inl e ↦ absurd (ground (arith, h, e))
      | inr e ↦ inl (ground (arith, h, e.1))
    ]

pub complete-tasks :
    (python : Python) (ids : Ids) (lease : ExtractionTaskLease) (v : ClaimValidation) (raw : String)
    (ref : Option String) (now : ℕ) (db : Db) (c : ExtractionCompletion) (db' : Db)
    → complete_extraction python ids lease v raw ref now db ≡ ok (c, db')
    → (assert_current_lease db lease ≡ true)
      × GrownBy ids.reconstruction_task (completed_tasks lease v now db.tasks) db'.tasks
unfolding complete_extraction recorded
complete-tasks python ids lease v raw ref now db c db' h =
    let version = next_claim_set_version db lease.invoice_id in
    elim (Bool-cases (assert_current_lease db lease)) [
      | inr a ↦ absurd (ground (arith, h, a))
      | inl a ↦ elim (Option-cases (joined db lease)) [
        | inl j ↦ absurd (ground (arith, h, a, j))
        | inr (sa, j) ↦
            let written = recorded python ids lease v now version ref raw sa.0 sa.1 db in
            elim (Option-cases (hand_over python ids lease v now version (passed v) written)) [
              | inl k ↦ absurd (ground (arith, h, a, j, k))
              | inr (q, k) ↦
                  let same : q ≡ (c, db') = ground (arith, h, a, j, k) in
                  (
                    a,
                    hand_over-GrownBy python ids lease v now version (passed v) written c db'
                        (k ∙ ap some same),
                  )
            ]
      ]
    ]

pub retry-tasks :
    (python : Python) (call : RetryCall) (task_id event : String) (now : ℕ) (db : Db)
    (r : RetryResult) (db' : Db)
    → retry_extraction_task python call task_id event now db ≡ ok (r, db')
    → GrownBy task_id db.tasks db'.tasks
unfolding retry_extraction_task retry_failed lock_invoice_and_advance insert_event retry_task
retry-tasks python call task_id event now db r db' h =
    let request = reserved python call db in
    elim (Option-cases request.response_snapshot) [
      | inr (q, j) ↦ inl (ground (arith, h, j))
      | inl j ↦ elim (Option-cases (previous_of call.invoice_id db.tasks)) [
        | inl p ↦ absurd (ground (arith, h, j, p))
        | inr (w, p) ↦ inr (retry_task call task_id w now, refl, ground (arith, h, j, p))
      ]
    ]
