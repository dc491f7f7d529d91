-- ===== src/Tasks/Steps.antt =====
-- The transactions as steps, and the primary key of the tasks along them.
use mathlib.Core.Path.{subst}
use tally_agentic_memory.Prelude.{
  ℕ, ◌+◌, ◌*◌, ◌≡◌, refl, sym, inl, inr, String, Bool, false, Option, none, some, List, [], ◌∷◌,
  arith, Bool-cases, str_eq,
}
use tally_agentic_memory.Prelude.Python.{Python}
use tally_agentic_memory.Prelude.Result.{ok}
use tally_agentic_memory.Intake.{TaskState}
use tally_agentic_memory.Tables.{
  Task, Db, ExtractionTaskLease, ExtractionCompletion, ClaimValidation, RetryResult, passed,
}
use tally_agentic_memory.Store.{update_where}
use tally_agentic_memory.Tasks.Claim.{claimed, claim_next_extraction_task}
use tally_agentic_memory.Tasks.Fail.{is_leased, fail_extraction, ended}
use tally_agentic_memory.Tasks.Complete.{Ids, complete_extraction, completed_task}
use tally_agentic_memory.Tasks.Retry.{RetryCall, retry_extraction_task}
use tally_agentic_memory.Tasks.Keys.{
  lookup, Keyed, KeepsId, step, step-id, Keyed-update_where, lookup-append, Keyed-append,
}
use tally_agentic_memory.Tasks.Effects.{GrownBy, ended_by, fail-tasks, complete-tasks, retry-tasks}
use tally_agentic_memory.Tasks.Lease.{claim-Taken}

-- One transaction of `intake_tasks.py` that succeeds. An id from `uuid4` names no task yet.
pub data Step (db : Db) : Db → Type 0 where
  claims :
      (locked : String → Bool) (worker : String) (secs : ℕ) (event : String) (now : ℕ)
      (lease : ExtractionTaskLease) (db' : Db)
      → claim_next_extraction_task locked worker secs event now db ≡ ok (some (lease, db'))
      → Step db db'
  fails :
      (lease : ExtractionTaskLease) (code : String) (retryable : Bool) (event : String) (now : ℕ)
      (state : TaskState) (db' : Db)
      → fail_extraction lease code retryable event now db ≡ ok (state, db')
      → Step db db'
  completes :
      (python : Python) (ids : Ids) (lease : ExtractionTaskLease) (v : ClaimValidation)
      (raw : String) (ref : Option String) (now : ℕ) (c : ExtractionCompletion) (db' : Db)
      → lookup ids.reconstruction_task db.tasks ≡ none
      → complete_extraction python ids lease v raw ref now db ≡ ok (c, db')
      → Step db db'
  retries :
      (python : Python) (call : RetryCall) (task_id event : String) (now : ℕ) (r : RetryResult)
      (db' : Db)
      → lookup task_id db.tasks ≡ none
      → retry_extraction_task python call task_id event now db ≡ ok (r, db')
      → Step db db'

pub data Run (db : Db) : Db → Type 0 where
  done : Run db db
  next : (mid last : Db) → Run db mid → Step mid last → Run db last

pub claimed-KeepsId : (worker : String) (n now t : ℕ) → KeepsId (claimed worker n now t)
unfolding claimed
claimed-KeepsId worker n now t w = refl

pub ended-KeepsId :
    (lease : ExtractionTaskLease) (code : String) (r : Bool) (now : ℕ)
    → KeepsId (ended_by lease code r now)
unfolding ended
ended-KeepsId lease code r now w = refl

pub completed-KeepsId : (b : Bool) (now : ℕ) → KeepsId (completed_task b now)
unfolding completed_task
completed-KeepsId b now w = refl

pub Keyed-GrownBy :
    (id : String) (ws us : List Task) → GrownBy id ws us → Keyed ws → lookup id ws ≡ none → Keyed us
Keyed-GrownBy id ws us (inl e) k n = subst Keyed (sym e) k
Keyed-GrownBy id ws us (inr (w, i, e)) k n =
    subst Keyed (sym e) (Keyed-append ws w k (subst (λ j. lookup j ws ≡ none) (sym i) n))

pub lookup-GrownBy :
    (id : String) (ws us : List Task)
    → GrownBy id ws us
    → (key : String) (w : Task) → lookup key ws ≡ some w
    → lookup key us ≡ some w
lookup-GrownBy id ws us (inl e) key w h = subst (λ vs. lookup key vs ≡ some w) (sym e) h
lookup-GrownBy id ws us (inr (v, i, e)) key w h =
    subst (λ vs. lookup key vs ≡ some w) (sym e) (lookup-append key ws (v ∷ []) w h)

-- A new id that names no task names none after an update either.
fresh-update_where :
    (p : Task → Bool) (f : Task → Task) (keeps : KeepsId f) (id : String) (ws : List Task)
    → lookup id ws ≡ none
    → lookup id (update_where p f ws) ≡ none
fresh-update_where p f keeps id [] h = refl
fresh-update_where p f keeps id (w ∷ ws) h = elim (Bool-cases (str_eq w.id id)) [
  | inl e ↦ absurd (ground (arith, h, e))
  | inr e ↦
      let k : lookup id ws ≡ none = rw e at h in
      let g : str_eq (step p f keeps w).id id ≡ false =
        subst (λ i. str_eq i id ≡ false) (sym (step-id p f keeps w)) e in
      rw g (fresh-update_where p f keeps id ws k)
]

-- The id of a task is unique at every moment.
pub Keyed-Step : (db db' : Db) → Step db db' → Keyed db.tasks → Keyed db'.tasks
Keyed-Step db db' (claims locked worker secs event now lease d h) k =
    let (w, t) = claim-Taken locked worker secs event now db lease db' k h in
    subst Keyed (sym t.3) (
      Keyed-update_where (λ v. str_eq v.id w.id) _
        (claimed-KeepsId worker (w.current_attempt + 1) now (now + secs * 1000000)) db.tasks k)
Keyed-Step db db' (fails lease code retryable event now state d h) k =
    let t = fail-tasks lease code retryable event now db state db' h in
    subst Keyed (sym t.2)
      (Keyed-update_where (is_leased lease) _ (ended-KeepsId lease code retryable now) db.tasks k)
Keyed-Step db db' (completes python ids lease v raw ref now c d n h) k =
    let t = complete-tasks python ids lease v raw ref now db c db' h in
    Keyed-GrownBy ids.reconstruction_task _ db'.tasks t.1
      (Keyed-update_where (is_leased lease) _ (completed-KeepsId (passed v) now) db.tasks k)
      (fresh-update_where (is_leased lease) _ (completed-KeepsId (passed v) now)
        ids.reconstruction_task db.tasks n)
Keyed-Step db db' (retries python call task_id event now r d n h) k =
    Keyed-GrownBy task_id db.tasks db'.tasks (retry-tasks python call task_id event now db r db' h)
      k n
