-- ===== src/Tasks/Replay.antt =====
-- The idempotency of a requested retry.
use tally_agentic_memory.Prelude.{
  ℕ, ◌≡◌, refl, inl, inr, String, true, false, some, List, ◌∷◌, arith, Option-cases, eq_iff,
}
use tally_agentic_memory.Prelude.Python.{Python}
use tally_agentic_memory.Prelude.Result.{ok}
use tally_agentic_memory.Store.{invoice_of, lock_invoice_and_advance, insert_event}
use tally_agentic_memory.Tables.{RetryRequest}
use tally_agentic_memory.Tables.{Db, RetryResult}
use tally_agentic_memory.Tasks.Retry.{
  RetryCall, retry_extraction_task, retry_failed, request_hash, reserved, previous_of,
}

-- The record that an accepted retry leaves.
abbrev kept : Python → RetryCall → RetryResult → RetryRequest
kept python call r = record {
  idempotency_key = call.idempotency_key;
  invoice_id = call.invoice_id;
  request_hash = request_hash python call;
  response_snapshot = some r;
}

retry_requests :
    (python : Python) (call : RetryCall) (task_id event : String) (now : ℕ) (before : Db)
    (r : RetryResult) (after : Db)
    → retry_extraction_task python call task_id event now before ≡ ok (r, after)
    → r.replay ≡ false
    → after.retry_requests ≡ kept python call r ∷ before.retry_requests
unfolding retry_extraction_task retry_failed lock_invoice_and_advance insert_event
retry_requests python call task_id event now before r after h n =
    let request = reserved python call before in
    elim (Option-cases request.response_snapshot) [
      | inr (q, j) ↦ absurd (ground (arith, h, j, n))
      | inl j ↦ elim (Option-cases (previous_of call.invoice_id before.tasks)) [
        | inl p ↦ absurd (ground (arith, h, j, p))
        | inr (w, p) ↦ elim (Option-cases (invoice_of before call.invoice_id)) [
          | inl e ↦ absurd (ground (arith, h, j, e))
          | inr (i, e) ↦ ground (arith, h, j, p, e)
        ]
      ]
    ]

reserved-kept :
    (python : Python) (call : RetryCall) (r : RetryResult) (rs : List RetryRequest) (db : Db)
    → db.retry_requests ≡ kept python call r ∷ rs
    → reserved python call db ≡ kept python call r
unfolding reserved
reserved-kept python call r rs db e =
    let k = (eq_iff call.idempotency_key call.idempotency_key).1 refl in ground (arith, e, k)

replay_kept :
    (python : Python) (call : RetryCall) (r : RetryResult) (again event : String) (now : ℕ)
    (db : Db)
    → reserved python call db ≡ kept python call r
    → retry_extraction_task python call again event now db ≡ ok (record r { replay = true }, db)
unfolding retry_extraction_task
replay_kept python call r again event now db e =
    let a = (eq_iff call.invoice_id call.invoice_id).1 refl in
    let b = (eq_iff (request_hash python call) (request_hash python call)).1 refl in
    ground (arith, e, a, b)

-- A retry that was accepted is answered from its record when it is asked for again: the same task,
-- version and row version, marked as a replay, and no change.
pub retry_replays :
    (python : Python) (call : RetryCall) (task_id event again again_event : String) (now later : ℕ)
    (before : Db) (r : RetryResult) (after : Db)
    → retry_extraction_task python call task_id event now before ≡ ok (r, after)
    → r.replay ≡ false
    → retry_extraction_task python call again again_event later after
      ≡ ok (record r { replay = true }, after)
retry_replays python call task_id event again again_event now later before r after h n =
    replay_kept python call r again again_event later after (
      reserved-kept python call r before.retry_requests after
        (retry_requests python call task_id event now before r after h n))
