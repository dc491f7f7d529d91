-- ===== src/Tasks/Fencing.antt =====
-- A spent lease stays spent, whatever transactions on extraction tasks follow.
use mathlib.Core.Path.{subst}
use tally_agentic_memory.Prelude.{
  ℕ, ◌+◌, ◌*◌, ◌≡◌, sym, ◌∙◌, inl, inr, String, Bool, true, some, List, find_sound, arith,
  Bool-cases, str_eq, eq_iff,
}
use tally_agentic_memory.Tables.{Task, Db, ExtractionTaskLease, passed}
use tally_agentic_memory.Store.{update_where}
use tally_agentic_memory.Tasks.Claim.{claimed}
use tally_agentic_memory.Tasks.Fail.{is_leased}
use tally_agentic_memory.Tasks.Complete.{completed_task}
use tally_agentic_memory.Tasks.Keys.{lookup, Keyed, KeepsId, step, lookup-update_where}
use tally_agentic_memory.Tasks.Effects.{
  completed_tasks, ended_by, fail-tasks, complete-tasks, retry-tasks,
}
use tally_agentic_memory.Tasks.Lease.{claim-Taken}
use tally_agentic_memory.Tasks.Steps.{
  Step, claims, fails, completes, retries, Run, done, next, Keyed-Step, claimed-KeepsId,
  ended-KeepsId, completed-KeepsId, lookup-GrownBy,
}
use tally_agentic_memory.Tasks.Spent.{SpentOn, Spent, ended-Ends, completed-Ends, Ends-SpentOn}

Spent-update :
    (p : Task → Bool) (f : Task → Task) (keeps : KeepsId f) (lease : ExtractionTaskLease)
    (ws us : List Task) (w : Task)
    → us ≡ update_where p f ws
    → lookup lease.task_id ws ≡ some w
    → lookup lease.task_id us ≡ some (step p f keeps w)
Spent-update p f keeps lease ws us w e h =
    subst (λ vs. lookup lease.task_id vs ≡ some (step p f keeps w)) (sym e)
      (lookup-update_where p f keeps lease.task_id ws w h)

-- A claim keeps what is spent: it takes the task to the attempt after the current one.
claimed-SpentOn :
    (worker : String) (now t : ℕ) (v w : Task) (lease : ExtractionTaskLease)
    → ((str_eq w.id v.id ≡ true) → w ≡ v)
    → SpentOn lease w
    → SpentOn lease (
        step
          (λ u. str_eq u.id v.id)
          (claimed worker (v.current_attempt + 1) now t)
          (claimed-KeepsId worker (v.current_attempt + 1) now t)
          w)
unfolding claimed
claimed-SpentOn worker now t v w lease same h = elim (Bool-cases (str_eq w.id v.id)) [
  | inr e ↦ rw e h
  | inl e ↦
      let k : SpentOn lease v = subst (SpentOn lease) (same e) h in
      rw e (elim k [ inl a ↦ inl (omega (arith, a)) | inr a ↦ inl (omega (arith, a.0)) ])
]

same_task :
    (lease : ExtractionTaskLease) (v w : Task) (ws : List Task)
    → lookup v.id ws ≡ some v
    → lookup lease.task_id ws ≡ some w
    → (str_eq w.id v.id ≡ true)
    → w ≡ v
same_task lease v w ws h e q =
    let i : w.id ≡ lease.task_id =
      (eq_iff w.id lease.task_id).0 (find_sound (λ u. str_eq u.id lease.task_id) ws w e) in
    let j : w.id ≡ v.id = (eq_iff w.id v.id).0 q in
    let m : lookup lease.task_id ws ≡ some v = subst (λ x. lookup x ws ≡ some v) (sym j ∙ i) h in
    let n : some w ≡ some v = sym e ∙ m in cc

pub Spent-Step :
    (lease : ExtractionTaskLease) (db db' : Db)
    → Step db db'
    → Keyed db.tasks
    → Spent lease db
    → Spent lease db'
Spent-Step lease db db' (claims locked worker secs event now l d h) k (w, e, s) =
    let (v, t) = claim-Taken locked worker secs event now db l db' k h in
    let same = same_task lease v w db.tasks t.0 e in
    (
      step (λ u. str_eq u.id v.id)
          (claimed worker (v.current_attempt + 1) now (now + secs * 1000000))
          (claimed-KeepsId worker (v.current_attempt + 1) now (now + secs * 1000000)) w,
      Spent-update (λ u. str_eq u.id v.id)
          (claimed worker (v.current_attempt + 1) now (now + secs * 1000000))
          (claimed-KeepsId worker (v.current_attempt + 1) now (now + secs * 1000000)) lease db.tasks
          db'.tasks w t.3 e,
      claimed-SpentOn worker now (now + secs * 1000000) v w lease same s,
    )
Spent-Step lease db db' (fails l code retryable event now state d h) k (w, e, s) =
    let t = fail-tasks l code retryable event now db state db' h in
    let keeps = ended-KeepsId l code retryable now in
    (
      step (is_leased l) (ended_by l code retryable now) keeps w,
      Spent-update (is_leased l) (ended_by l code retryable now) keeps lease db.tasks db'.tasks w
          t.2 e,
      Ends-SpentOn (ended_by l code retryable now) (is_leased l) keeps
          (ended-Ends l code retryable now) lease w s,
    )
Spent-Step lease db db' (completes python ids l v raw ref now c d n h) k (w, e, s) =
    let t = complete-tasks python ids l v raw ref now db c db' h in
    let f = completed_task (passed v) now in
    let keeps = completed-KeepsId (passed v) now in
    (
      step (is_leased l) f keeps w,
      lookup-GrownBy ids.reconstruction_task (completed_tasks l v now db.tasks) db'.tasks t.1
          lease.task_id (step (is_leased l) f keeps w)
          (lookup-update_where (is_leased l) f keeps lease.task_id db.tasks w e),
      Ends-SpentOn f (is_leased l) keeps (completed-Ends (passed v) now) lease w s,
    )
Spent-Step lease db db' (retries python call task_id event now r d n h) k (w, e, s) = (
  w,
  lookup-GrownBy task_id db.tasks db'.tasks (retry-tasks python call task_id event now db r db' h)
      lease.task_id w e,
  s,
)

pub Spent-Run :
    (lease : ExtractionTaskLease) (db db' : Db)
    → Run db db'
    → Keyed db.tasks
    → Spent lease db
    → Spent lease db' × Keyed db'.tasks
Spent-Run lease db db' done k s = (s, k)
Spent-Run lease db db' (next mid last run one) k s =
    let (s', k') = Spent-Run lease db mid run k s in
    (Spent-Step lease mid db' one k' s', Keyed-Step mid db' one k')
