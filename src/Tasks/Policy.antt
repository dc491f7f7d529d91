-- ===== src/Tasks/Policy.antt =====
-- When a failed extraction is tried again.
use tally_agentic_memory.Prelude.{
  ℕ, ◌+◌, ◌*◌, ◌^◌, ◌≤◌, ◌<◌, ◌≡◌, ◌↔◌, refl, sym, ap, ◌∙◌, inl, inr, String, Bool, true, none,
  some, List, [], ◌∷◌, str_eq, eq_iff, arith, Bool-cases, Option-cases,
}
use tally_agentic_memory.Prelude.Result.{ok}
use tally_agentic_memory.Intake.{TaskState, retry_wait, extract_invoice_claims}
use tally_agentic_memory.Tables.{Task, Db, ExtractionTaskLease}
use tally_agentic_memory.Store.{task_of, assert_current_lease}
use tally_agentic_memory.Tasks.Claim.{claimable}
use tally_agentic_memory.Tasks.Fail.{is_leased, fail_extraction, ended, will_retry, failed_state}
use tally_agentic_memory.Tasks.Keys.{lookup, lookup-update_where}
use tally_agentic_memory.Tasks.Effects.{ended_by, fail-tasks}

lookup-own : (id : String) (ws : List Task) (w : Task) → lookup id ws ≡ some w → w.id ≡ id
lookup-own id [] w h = absurd (ground (arith, h))
lookup-own id (v ∷ ws) w h = elim (Bool-cases (str_eq v.id id)) [
  | inl e ↦
      let same : v ≡ w = ground (arith, h, e) in ap (λ u. u.id) (sym same) ∙ (eq_iff v.id id).0 e
  | inr e ↦ lookup-own id ws w (ground (arith, h, e))
]

module _ (lease : ExtractionTaskLease) (code : String) (retryable : Bool) (now : ℕ) where
  -- The row of the task before and after a failure.
  abbrev Ends : Db → Db → Task → Type 0
  Ends db db' w =
      (task_of db lease.task_id ≡ some w)
      × (task_of db' lease.task_id ≡ some (ended_by lease code retryable now w))

  fail-Ends :
      (event : String) (db : Db) (state : TaskState) (db' : Db)
      → fail_extraction lease code retryable event now db ≡ ok (state, db')
      → (w : Task) × Ends db db' w
  unfolding assert_current_lease task_of ended
  fail-Ends event db state db' h =
      let (held, _, rows) = fail-tasks lease code retryable event now db state db' h in
      elim (Option-cases (task_of db lease.task_id)) [
        | inl e ↦ absurd (ground (arith, held, e))
        | inr (w, e) ↦
            let own = lookup-own lease.task_id db.tasks w e in
            let found =
              lookup-update_where (is_leased lease) (ended_by lease code retryable now) (λ v. refl)
                lease.task_id db.tasks w e in
            let mine : is_leased lease w ≡ true =
              ground (arith, held, e, (eq_iff w.id lease.task_id).1 own) in
            (w, (e, rw rows (found ∙ rw mine refl)))
      ]

  ended-claimable :
      (w : Task) (due : ℕ)
      → (claimable due (ended_by lease code retryable now w) ≡ true) ↔ (
          (w.task_type ≡ extract_invoice_claims)
          × (retryable ≡ true)
          × (lease.attempt < 3)
          × (now + 2 ^ lease.attempt * 1000000 ≤ due))
  unfolding claimable ended failed_state will_retry
  ended-claimable w due = (
    λ h. (ground (arith, h), ground (arith, h), ground (arith, h), ground (arith, h)),
    λ (t, r, n, d). ground (arith, t, r, n, d),
  )

-- A failure that is recorded was reported under the current lease. The row of the task then has the
-- state that is returned and no owner, and it may be claimed at a time exactly if its type is that of
-- an extraction, the failure is retryable, fewer than three attempts were made and 2 to the power of
-- the attempt seconds have passed since; the state is RETRY_WAIT exactly if the failure is retryable
-- and fewer than three attempts were made.
pub fail_policy :
    (lease : ExtractionTaskLease) (code : String) (retryable : Bool) (event : String) (now : ℕ)
    (db : Db) (state : TaskState) (db' : Db)
    → fail_extraction lease code retryable event now db ≡ ok (state, db')
    → (assert_current_lease db lease ≡ true)
      × ((state ≡ retry_wait) ↔ ((retryable ≡ true) × (lease.attempt < 3)))
      × ((w : Task) × (w' : Task) × (task_of db lease.task_id ≡ some w)
          × (task_of db' lease.task_id ≡ some w')
          × (w'.state ≡ state)
          × (w'.lease_owner ≡ none)
          × ((due : ℕ)
              → (claimable due w' ≡ true) ↔ (
                  (w.task_type ≡ extract_invoice_claims)
                  × (retryable ≡ true)
                  × (lease.attempt < 3)
                  × (now + 2 ^ lease.attempt * 1000000 ≤ due))))
unfolding failed_state will_retry ended
fail_policy lease code retryable event now db state db' h =
    let (held, same, _) = fail-tasks lease code retryable event now db state db' h in
    let (w, (before, after)) = fail-Ends lease code retryable now event db state db' h in
    (
      held,
      (
        λ e. (ground (arith, same, e), ground (arith, same, e)),
        λ k. ground (arith, same, k.0, k.1),
      ),
      (
        w,
        ended_by lease code retryable now w,
        before,
        after,
        sym same,
        refl,
        ended-claimable lease code retryable now w,
      ),
    )
