-- ===== src/Tasks/Lease.antt =====
-- The lease of a task: which transactions honour it, along every sequence of them.
use mathlib.Core.Path.{subst}
use tally_agentic_memory.Prelude.{
  ℕ, ◌+◌, ◌*◌, ◌≡◌, ◌∙◌, inl, inr, String, Bool, not, ◌&&◌, Option, some, List, [], ◌∷◌, All, arith,
  Bool-cases, Option-cases, str_eq,
}
use tally_agentic_memory.Prelude.Sort.{All-sort}
use tally_agentic_memory.Prelude.Result.{Result, ok, err}
use tally_agentic_memory.Tables.{Task, Source, Db, ExtractionTaskLease}
use tally_agentic_memory.Store.{update_where}
use tally_agentic_memory.Tasks.Claim.{
  claimable, selected, next_row, row_le, claimed, claim_row, claim_next_extraction_task, source_of,
  first,
}
use tally_agentic_memory.Tasks.Keys.{lookup, Keyed, Keyed-lookup}
use tally_agentic_memory.Tasks.Effects.{claim_row-tasks}

All-selected :
    (P : Task → Type 0) (locked : String → Bool) (now : ℕ) (db : Db) (ws : List Task)
    → All P ws
    → All (λ r. P r.0) (selected locked now db ws)
unfolding selected
All-selected P locked now db [] h = tt
All-selected P locked now db (w ∷ ws) h =
    let rest = All-selected P locked now db ws h.1 in
    elim (Bool-cases (claimable now w && not (locked w.id))) [
      | inr e ↦ rw e rest
      | inl e ↦ elim (Option-cases (source_of db w)) [
        | inl n ↦ rw e (rw n rest)
        | inr (s, n) ↦ rw e (rw n (h.0, rest))
      ]
    ]

All-first :
    (P : Task × Source → Type 0) (rs : List (Task × Source)) (r : Task × Source)
    → All P rs
    → first rs ≡ some r
    → P r
All-first P [] r h e = absurd (ground (arith, e))
All-first P (q ∷ rs) r h e = subst P (let k : q ≡ r = cc in k) h.0

next_row-lookup :
    (locked : String → Bool) (now : ℕ) (db : Db) (w : Task) (s : Source)
    → Keyed db.tasks
    → next_row locked now db ≡ some (w, s)
    → lookup w.id db.tasks ≡ some w
unfolding next_row
next_row-lookup locked now db w s k h =
    All-first (λ r. lookup r.0.id db.tasks ≡ some r.0) _ (w, s)
      (All-sort row_le _ _ (
        All-selected (λ v. lookup v.id db.tasks ≡ some v) locked now db db.tasks
          (Keyed-lookup db.tasks k)))
      h

-- What a claim does: it takes a task that its id finds, for the next attempt.
abbrev pub Taken : String → ℕ → ℕ → ExtractionTaskLease → Db → Db → Task → Type 0
Taken worker secs now lease db db' w =
    (lookup w.id db.tasks ≡ some w)
    × (lease.task_id ≡ w.id)
    × (lease.attempt ≡ w.current_attempt + 1)
    × (db'.tasks
        ≡ update_where (λ v. str_eq v.id w.id)
            (claimed worker (w.current_attempt + 1) now (now + secs * 1000000)) db.tasks)

abbrev wrapped :
    Result {0} String (ExtractionTaskLease × Db)
    → Result {0} String (Option (ExtractionTaskLease × Db))
wrapped r = elim r [ ok t ↦ ok (some t) | err e ↦ err e ]

claimed_ok :
    (r : Result {0} String (ExtractionTaskLease × Db)) (q : ExtractionTaskLease × Db)
    → wrapped r ≡ ok (some q)
    → r ≡ ok q
claimed_ok (ok t) q h = cc
claimed_ok (err e) q h = cc

claim_found :
    (locked : String → Bool) (worker : String) (secs : ℕ) (event : String) (now : ℕ) (db : Db)
    (ws : Task × Source)
    → next_row locked now db ≡ some ws
    → wrapped (claim_row worker secs event now ws.0 ws.1 db)
      ≡ claim_next_extraction_task locked worker secs event now db
unfolding claim_next_extraction_task
claim_found locked worker secs event now db ws e = ground (arith, e)

-- A claim that gives out a lease did so for the selected row.
pub claim-row :
    (locked : String → Bool) (worker : String) (secs : ℕ) (event : String) (now : ℕ) (db : Db)
    (lease : ExtractionTaskLease) (db' : Db)
    → claim_next_extraction_task locked worker secs event now db ≡ ok (some (lease, db'))
    → (r : Task × Source) × (next_row locked now db ≡ some r)
      × (claim_row worker secs event now r.0 r.1 db ≡ ok (lease, db'))
unfolding claim_next_extraction_task
claim-row locked worker secs event now db lease db' h =
    elim (Option-cases (next_row locked now db)) [
      | inl e ↦ absurd (ground (arith, h, e))
      | inr (r, e) ↦ (
        r,
        e,
        claimed_ok (claim_row worker secs event now r.0 r.1 db) (lease, db')
            (claim_found locked worker secs event now db r e ∙ h),
      )
    ]

pub claim-Taken :
    (locked : String → Bool) (worker : String) (secs : ℕ) (event : String) (now : ℕ) (db : Db)
    (lease : ExtractionTaskLease) (db' : Db)
    → Keyed db.tasks
    → claim_next_extraction_task locked worker secs event now db ≡ ok (some (lease, db'))
    → (w : Task) × Taken worker secs now lease db db' w
claim-Taken locked worker secs event now db lease db' k h =
    let (r, e, row) = claim-row locked worker secs event now db lease db' h in
    let (id, attempt, tasks) = claim_row-tasks worker secs event now r.0 r.1 db lease db' row in
    (r.0, (next_row-lookup locked now db r.0 r.1 k e, id, attempt, tasks))
