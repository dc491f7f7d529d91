-- ===== src/Database.antt =====
-- src/external/db.py: run_with_retry. What `fn` changes through the connection is undone where the
-- transaction is restarted; `S` is what it changes elsewhere.
use tally_agentic_memory.Prelude.{
  ℕ, zero, suc, ◌+◌, ◌≤◌, ◌≡◌, ◌≢◌, refl, sym, ap, ◌∙◌, ◌⊎◌, inl, inr, String, arith,
}

-- One run of the transaction: it commits, is refused with SQLSTATE 40001, or raises something else.
pub data Outcome {ℓ} (A : Type ℓ) : Type ℓ where
  committed : A → Outcome A
  restarts : Outcome A
  raises : String → Outcome A

restarts-cases {ℓ} : {A : Type ℓ} (o : Outcome A) → (o ≡ restarts) ⊎ (o ≢ restarts)
restarts-cases restarts = inl refl
restarts-cases (committed a) = inr (λ e. cc)
restarts-cases (raises x) = inr (λ e. cc)

-- `DEFAULT_MAX_RETRIES`
abbrev pub default_max_retries : ℕ
default_max_retries = 5

module _ {ℓ κ} {A : Type ℓ} {S : Type κ} (run : ℕ → S → Outcome A × S) where
  abbrev pub unless_refused : Outcome A → Outcome A × S → Outcome A × S → Outcome A × S
  unless_refused restarts again r = again
  unless_refused (committed a) again r = r
  unless_refused (raises e) again r = r

  was_refused :
      (o : Outcome A) (again r : Outcome A × S) → o ≡ restarts → unless_refused o again r ≡ again
  was_refused restarts again r e = refl
  was_refused (committed a) again r e = cc
  was_refused (raises x) again r e = cc

  not_refused :
      (o : Outcome A) (again r : Outcome A × S) → o ≢ restarts → unless_refused o again r ≡ r
  not_refused restarts again r n = absurd (n refl)
  not_refused (committed a) again r n = refl
  not_refused (raises x) again r n = refl

  -- The loop at an attempt, with the retries that are left.
  unfoldable pub retry_from : ℕ → ℕ → S → Outcome A × S
  retry_from zero attempt s = run attempt s
  retry_from (suc left) attempt s =
      let rest = retry_from left (attempt + 1) (run attempt s).1 in
      unless_refused (run attempt s).0 rest (run attempt s)

  unfoldable pub run_with_retry : ℕ → S → Outcome A × S
  unfolding retry_from
  run_with_retry max_retries s = retry_from max_retries 0 s

  -- What is left elsewhere by so many runs from an attempt on.
  abbrev pub after_runs : ℕ → ℕ → S → S
  after_runs zero attempt s = s
  after_runs (suc n) attempt s = after_runs n (attempt + 1) (run attempt s).1

  -- So many runs from an attempt on are all refused.
  abbrev pub AllRestart : ℕ → ℕ → S → Type ℓ
  AllRestart zero attempt s = Unit {ℓ}
  AllRestart (suc n) attempt s =
      ((run attempt s).0 ≡ restarts) × AllRestart n (attempt + 1) (run attempt s).1

  -- The result is that of the run after some that were refused: the last one that the limit allows,
  -- or one that is not refused.
  abbrev pub EndsAt : ℕ → ℕ → S → Outcome A × S → ℕ → Type (ℓ ⊔ κ)
  EndsAt left attempt s r n =
      (n ≤ left)
      × AllRestart n attempt s
      × (r ≡ run (attempt + n) (after_runs n attempt s))
      × ((n ≡ left) ⊎ (r.0 ≢ restarts))

  pub stops :
      (left attempt : ℕ) (s : S)
      → (run attempt s).0 ≢ restarts
      → retry_from (suc left) attempt s ≡ run attempt s
  unfolding retry_from
  stops left attempt s n = not_refused _ _ _ n

  pub goes_on :
      (left attempt : ℕ) (s : S)
      → (run attempt s).0 ≡ restarts
      → retry_from (suc left) attempt s ≡ retry_from left (attempt + 1) (run attempt s).1
  unfolding retry_from
  goes_on left attempt s e = was_refused _ _ _ e

  -- From any attempt, the loop ends within the retries that are left.
  retry_from-EndsAt :
      (left attempt : ℕ) (s : S) → (n : ℕ) × EndsAt left attempt s (retry_from left attempt s) n
  unfolding retry_from
  retry_from-EndsAt zero attempt s =
      (zero, (omega arith, tt, ap (λ k. run k s) (omega arith), inl refl))
  retry_from-EndsAt (suc left) attempt s = elim (restarts-cases (run attempt s).0) [
    | inr n ↦ (
      zero,
      (
        omega arith,
        tt,
        stops left attempt s n ∙ ap (λ k. run k s) (omega arith),
        inr (λ e. n (ap (λ r. r.0) (sym (stops left attempt s n)) ∙ e)),
      ),
    )
    | inl e ↦
        let (n, (le, all, last, why)) = retry_from-EndsAt left (attempt + 1) (run attempt s).1 in
        let on = goes_on left attempt s e in
        (
          suc n,
          (
            omega (arith, le),
            (e, all),
            on
                ∙ (last
                    ∙ ap (λ k. run k (after_runs n (attempt + 1) (run attempt s).1)) (omega arith)),
            elim why [ inl q ↦ inl (ap suc q) | inr q ↦ inr (λ x. q (ap (λ r. r.0) (sym on) ∙ x)) ],
          ),
        )
  ]

  -- The transaction is run again only after runs that were refused, at most as often as the limit
  -- says, and what it gives is what the last run gives, which is refused only at the limit.
  pub run_with_retry-EndsAt :
      (max_retries : ℕ) (s : S) → (n : ℕ) × EndsAt max_retries 0 s (run_with_retry max_retries s) n
  unfolding run_with_retry
  run_with_retry-EndsAt max_retries s = retry_from-EndsAt max_retries 0 s
