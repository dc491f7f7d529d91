-- ===== src/Tasks/Spent.antt =====
-- Leases that are spent: what this is, and that they are refused.
use tally_agentic_memory.Prelude.{
  ℕ, ◌≤◌, ◌<◌, ◌≡◌, ◌⊎◌, refl, inl, inr, String, Bool, false, some, arith, Bool-cases,
}
use tally_agentic_memory.Tables.{Task, Db, ExtractionTaskLease}
use tally_agentic_memory.Store.{task_of, assert_current_lease, is_running, holds}
use tally_agentic_memory.Tasks.Fail.{ended, failed_state}
use tally_agentic_memory.Tasks.Complete.{completed_task}
use tally_agentic_memory.Tasks.Keys.{lookup, KeepsId, step}
use tally_agentic_memory.Tasks.Effects.{ended_by}

-- The task went past the lease's attempt, or the attempt is over.
abbrev pub SpentOn : ExtractionTaskLease → Task → Type 0
SpentOn lease w =
    (lease.attempt < w.current_attempt)
    ⊎ ((lease.attempt ≤ w.current_attempt) × (is_running w.state ≡ false))

abbrev pub Spent : ExtractionTaskLease → Db → Type 0
Spent lease db = (w : Task) × (lookup lease.task_id db.tasks ≡ some w) × SpentOn lease w

pub not_held : (lease : ExtractionTaskLease) (w : Task) → SpentOn lease w → holds lease w ≡ false
not_held lease w (inl h) = ground arith
not_held lease w (inr h) = ground (arith, h.0, h.1)

-- A spent lease is refused.
pub Spent-assert :
    (lease : ExtractionTaskLease) (db : Db) → Spent lease db → assert_current_lease db lease ≡ false
unfolding assert_current_lease task_of
Spent-assert lease db (w, e, s) = ground (arith, e, not_held lease w s)

-- What the end of an attempt leaves: the attempt's number, and a state that is not running.
abbrev pub Ends : (Task → Task) → Type 0
Ends f = (w : Task) → ((f w).current_attempt ≡ w.current_attempt) × (is_running (f w).state ≡ false)

pub ended-Ends :
    (lease : ExtractionTaskLease) (code : String) (r : Bool) (now : ℕ)
    → Ends (ended_by lease code r now)
unfolding ended failed_state
ended-Ends lease code r now w = (refl, ground arith)

pub completed-Ends : (b : Bool) (now : ℕ) → Ends (completed_task b now)
unfolding completed_task
completed-Ends b now w = (refl, refl)

-- An attempt's end keeps what is spent.
pub Ends-SpentOn :
    (f : Task → Task) (p : Task → Bool) (keeps : KeepsId f)
    → Ends f
    → (lease : ExtractionTaskLease) (w : Task) → SpentOn lease w
    → SpentOn lease (step p f keeps w)
Ends-SpentOn f p keeps ends lease w h = elim (Bool-cases (p w)) [
  | inr e ↦ rw e h
  | inl e ↦
      let (a, r) = ends w in
      rw e (elim h [ inl k ↦ inl (omega (arith, k, a)) | inr k ↦ inr (omega (arith, k.0, a), r) ])
]
