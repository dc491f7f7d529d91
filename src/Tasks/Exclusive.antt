-- ===== src/Tasks/Exclusive.antt =====
-- At most one worker ends an attempt, and none that a later claim superseded.
use mathlib.Core.Path.{subst}
use tally_agentic_memory.Prelude.{
  ℕ, ◌+◌, ◌<◌, ◌*◌, ◌≡◌, refl, sym, ◌∙◌, inl, inr, String, Bool, true, Option, none, some, List,
  find_sound, arith, Option-cases, str_eq, eq_iff,
}
use tally_agentic_memory.Prelude.Python.{Python}
use tally_agentic_memory.Prelude.Result.{ok, err}
use tally_agentic_memory.Intake.{TaskState}
use tally_agentic_memory.Tables.{
  Task, Db, ExtractionTaskLease, ExtractionCompletion, ClaimValidation, passed,
}
use tally_agentic_memory.Store.{update_where, task_of, assert_current_lease, holds}
use tally_agentic_memory.Tasks.Claim.{claimed, claim_next_extraction_task}
use tally_agentic_memory.Tasks.Fail.{is_leased, fail_extraction}
use tally_agentic_memory.Tasks.Complete.{Ids, complete_extraction, completed_task}
use tally_agentic_memory.Tasks.Keys.{lookup, Keyed, KeepsId, step, lookup-update_where}
use tally_agentic_memory.Tasks.Effects.{ended_by, fail-tasks, complete-tasks}
use tally_agentic_memory.Tasks.Lease.{claim-Taken}
use tally_agentic_memory.Tasks.Steps.{
  claims, fails, completes, Run, Keyed-Step, claimed-KeepsId, ended-KeepsId, completed-KeepsId,
  lookup-GrownBy,
}
use tally_agentic_memory.Tasks.Spent.{
  SpentOn, Spent, Spent-assert, Ends, ended-Ends, completed-Ends,
}
use tally_agentic_memory.Tasks.Fencing.{Spent-Run}

-- Neither transaction takes the lease.
abbrev pub Refused : ExtractionTaskLease → Db → Type 0
Refused lease db =
    ((code : String) (retryable : Bool) (event : String) (now : ℕ)
      → fail_extraction lease code retryable event now db ≡ err "TASK_LEASE_LOST")
    × ((python : Python) (ids : Ids) (v : ClaimValidation) (raw : String) (ref : Option String)
          (now : ℕ)
        → complete_extraction python ids lease v raw ref now db ≡ err "TASK_LEASE_LOST")

Spent-Refused : (lease : ExtractionTaskLease) (db : Db) → Spent lease db → Refused lease db
unfolding fail_extraction complete_extraction
Spent-Refused lease db s =
    let lost = Spent-assert lease db s in
    (
      λ code retryable event now. ground (arith, lost),
      λ python ids v raw ref now. ground (arith, lost),
    )

assert-holds :
    (lease : ExtractionTaskLease) (db : Db)
    → assert_current_lease db lease ≡ true
    → (w : Task) × (lookup lease.task_id db.tasks ≡ some w) × (holds lease w ≡ true)
unfolding assert_current_lease task_of
assert-holds lease db h = elim (Option-cases (lookup lease.task_id db.tasks)) [
  | inl e ↦ absurd (ground (arith, h, e))
  | inr (w, e) ↦ (w, e, ground (arith, h, e))
]

-- The end of the held attempt spends the lease.
ended-SpentOn :
    (f : Task → Task) (keeps : KeepsId f)
    → Ends f
    → (lease : ExtractionTaskLease) (ws : List Task) (w : Task) → lookup lease.task_id ws ≡ some w
    → holds lease w ≡ true
    → SpentOn lease (step (is_leased lease) f keeps w)
ended-SpentOn f keeps ends lease ws w e h =
    let i : str_eq w.id lease.task_id ≡ true = find_sound (λ u. str_eq u.id lease.task_id) ws w e in
    let p : is_leased lease w ≡ true = ground (arith, i, h) in
    let n : w.current_attempt ≡ lease.attempt = ground (arith, h) in
    let (a, r) = ends w in rw p (inr (omega (arith, n, a), r))

failed-Spent :
    (lease : ExtractionTaskLease) (code : String) (retryable : Bool) (event : String) (now : ℕ)
    (db : Db) (state : TaskState) (db' : Db)
    → fail_extraction lease code retryable event now db ≡ ok (state, db')
    → Spent lease db'
failed-Spent lease code retryable event now db state db' h =
    let (held, _, tasks) = fail-tasks lease code retryable event now db state db' h in
    let (w, e, k) = assert-holds lease db held in
    let keeps = ended-KeepsId lease code retryable now in
    let f = ended_by lease code retryable now in
    (
      step (is_leased lease) f keeps w,
      subst (λ ws. lookup lease.task_id ws ≡ some (step (is_leased lease) f keeps w)) (sym tasks)
          (lookup-update_where (is_leased lease) f keeps lease.task_id db.tasks w e),
      ended-SpentOn f keeps (ended-Ends lease code retryable now) lease db.tasks w e k,
    )

completed-Spent :
    (python : Python) (ids : Ids) (lease : ExtractionTaskLease) (v : ClaimValidation) (raw : String)
    (ref : Option String) (now : ℕ) (db : Db) (c : ExtractionCompletion) (db' : Db)
    → complete_extraction python ids lease v raw ref now db ≡ ok (c, db')
    → Spent lease db'
completed-Spent python ids lease v raw ref now db c db' h =
    let (held, grown) = complete-tasks python ids lease v raw ref now db c db' h in
    let (w, e, k) = assert-holds lease db held in
    let keeps = completed-KeepsId (passed v) now in
    let f = completed_task (passed v) now in
    (
      step (is_leased lease) f keeps w,
      lookup-GrownBy ids.reconstruction_task _ db'.tasks grown lease.task_id
          (step (is_leased lease) f keeps w)
          (lookup-update_where (is_leased lease) f keeps lease.task_id db.tasks w e),
      ended-SpentOn f keeps (completed-Ends (passed v) now) lease db.tasks w e k,
    )

-- Where no two tasks have one id: once a completion has succeeded, whatever transactions on
-- extraction tasks follow it, its lease neither completes nor fails the task again.
pub completed-Refused :
    (python : Python) (ids : Ids) (lease : ExtractionTaskLease) (v : ClaimValidation) (raw : String)
    (ref : Option String) (now : ℕ) (before : Db) (c : ExtractionCompletion) (after later : Db)
    → Keyed before.tasks
    → lookup ids.reconstruction_task before.tasks ≡ none
    → complete_extraction python ids lease v raw ref now before ≡ ok (c, after)
    → Run after later
    → Refused lease later
completed-Refused python ids lease v raw ref now before c after later k n h run =
    let keyed = Keyed-Step before after (completes python ids lease v raw ref now c after n h) k in
    Spent-Refused lease later
      (Spent-Run lease after later run keyed
        (completed-Spent python ids lease v raw ref now before c after h)).0

-- Where no two tasks have one id: once a failure was recorded under a lease, whatever transactions
-- on extraction tasks follow it, that lease neither completes nor fails the task again.
pub failed-Refused :
    (lease : ExtractionTaskLease) (code : String) (retryable : Bool) (event : String) (now : ℕ)
    (before : Db) (state : TaskState) (after later : Db)
    → Keyed before.tasks
    → fail_extraction lease code retryable event now before ≡ ok (state, after)
    → Run after later
    → Refused lease later
failed-Refused lease code retryable event now before state after later k h run =
    let keyed = Keyed-Step before after (fails lease code retryable event now state after h) k in
    Spent-Refused lease later
      (Spent-Run lease after later run keyed
        (failed-Spent lease code retryable event now before state after h)).0

taken_attempt :
    (worker : String) (n now t : ℕ) (v : Task)
    → (step
        (λ u. str_eq u.id v.id)
        (claimed worker n now t)
        (claimed-KeepsId worker n now t)
        v).current_attempt
      ≡ n
unfolding claimed
taken_attempt worker n now t v = ground (arith, (eq_iff v.id v.id).1 refl)

-- Where no two tasks have one id: once a claim gave out a lease of a task, whatever transactions
-- on extraction tasks follow it, no lease of an earlier attempt of that task completes or fails
-- it.
pub superseded-Refused :
    (locked : String → Bool) (worker : String) (secs : ℕ) (event : String) (now : ℕ) (before : Db)
    (lease old : ExtractionTaskLease) (after later : Db)
    → Keyed before.tasks
    → claim_next_extraction_task locked worker secs event now before ≡ ok (some (lease, after))
    → old.task_id ≡ lease.task_id
    → old.attempt < lease.attempt
    → Run after later
    → Refused old later
superseded-Refused locked worker secs event now before lease old after later k h same less run =
    let keyed = Keyed-Step before after (claims locked worker secs event now lease after h) k in
    let (v, (found, id, attempt, tasks)) =
      claim-Taken locked worker secs event now before lease after k h in
    let n = v.current_attempt + 1 in
    let f = claimed worker n now (now + secs * 1000000) in
    let keeps = claimed-KeepsId worker n now (now + secs * 1000000) in
    let p : Task → Bool = λ u. str_eq u.id v.id in
    let there : lookup old.task_id after.tasks ≡ some (step p f keeps v) =
      subst (λ ws. lookup old.task_id ws ≡ some (step p f keeps v)) (sym tasks)
        (subst (λ i. lookup i (update_where p f before.tasks) ≡ some (step p f keeps v))
          (sym (same ∙ id)) (lookup-update_where p f keeps v.id before.tasks v found)) in
    Spent-Refused old later
      (Spent-Run old after later run keyed (
        step p f keeps v,
        there,
        inl (omega (arith, less, attempt, taken_attempt worker n now (now + secs * 1000000) v)),
      )).0
