-- ===== src/Tasks/Invariant.antt =====
-- The invariant of the invoices and their events, along every sequence of the transactions on tasks.
use tally_agentic_memory.Prelude.{
  ℕ, ◌≡◌, ap, ◌∙◌, inl, inr, String, Option, some, arith, Bool-cases, Option-cases,
}
use tally_agentic_memory.Prelude.Python.{Python}
use tally_agentic_memory.Prelude.Result.{ok}
use tally_agentic_memory.Tables.{
  Db, ExtractionTaskLease, ExtractionCompletion, ClaimValidation, passed,
}
use tally_agentic_memory.Store.{assert_current_lease}
use tally_agentic_memory.Tasks.Complete.{
  Ids, complete_extraction, hand_over, recorded, joined, next_claim_set_version,
}
use tally_agentic_memory.Tasks.Lease.{claim-row}
use tally_agentic_memory.Tasks.Steps.{Step, claims, fails, completes, retries, Run, done, next}
use tally_agentic_memory.Events.Log.{Logs, IsLogged, Logs-IsLogged, ProjectsTo}
use tally_agentic_memory.Tasks.Log.{
  claim_row-Logs, fail-Logs, retry-Logs, hand_over-Logs, Logs-recorded,
}

complete-Logs :
    (python : Python) (ids : Ids) (lease : ExtractionTaskLease) (v : ClaimValidation) (raw : String)
    (ref : Option String) (now : ℕ) (db : Db) (c : ExtractionCompletion) (db' : Db)
    → complete_extraction python ids lease v raw ref now db ≡ ok (c, db')
    → Logs ProjectsTo db db'
unfolding complete_extraction
complete-Logs python ids lease v raw ref now db c db' h =
    let version = next_claim_set_version db lease.invoice_id in
    elim (Bool-cases (assert_current_lease db lease)) [
      | inr a ↦ absurd (ground (arith, h, a))
      | inl a ↦ elim (Option-cases (joined db lease)) [
        | inl j ↦ absurd (ground (arith, h, a, j))
        | inr (sa, j) ↦
            let written = recorded python ids lease v now version ref raw sa.0 sa.1 db in
            elim (Option-cases (hand_over python ids lease v now version (passed v) written)) [
              | inl k ↦ absurd (ground (arith, h, a, j, k))
              | inr (q, k) ↦
                  let same : q ≡ (c, db') = ground (arith, h, a, j, k) in
                  Logs-recorded python ids lease v now version ref raw sa.0 sa.1 db db' (
                    hand_over-Logs python ids lease v now version (passed v) written c db'
                      (k ∙ ap some same))
            ]
      ]
    ]

pub Step-Logs : (db db' : Db) → Step db db' → Logs ProjectsTo db db'
Step-Logs db db' (claims locked worker secs event now lease d h) =
    let (r, _, row) = claim-row locked worker secs event now db lease db' h in
    claim_row-Logs worker secs event now r.0 r.1 db lease db' row
Step-Logs db db' (fails lease code retryable event now state d h) =
    fail-Logs lease code retryable event now db state db' h
Step-Logs db db' (completes python ids lease v raw ref now c d n h) =
    complete-Logs python ids lease v raw ref now db c db' h
Step-Logs db db' (retries python call task_id event now r d n h) =
    retry-Logs python call task_id event now db r db' h

-- From tables where every event lies within the sequence of its invoice, no two events of an invoice
-- have one number, and every invoice shows the status that its intake state projects to, every
-- sequence of the four transactions on extraction tasks (a claim, a failure, a completion, a retry)
-- leads to such tables.
pub Run-IsLogged : (before after : Db) → Run before after → IsLogged before → IsLogged after
Run-IsLogged before after done l = l
Run-IsLogged before after (next mid last run one) l =
    Logs-IsLogged mid after (Step-Logs mid after one) (Run-IsLogged before mid run l)
