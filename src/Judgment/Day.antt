-- ===== src/Judgment/Day.antt =====
-- One charged day, against a description of its verdict that does not compute.
use mathlib.Core.Path.{subst₂}
use tally_agentic_memory.Prelude.{
  ◌≡◌, ◌≢◌, inl, inr, true, false, none, some, some, arith, str_eq, eq_iff, Bool-cases,
  Option-cases,
}
use tally_agentic_memory.Prelude.Int.{ℤ, pos, ◌-ℤ◌, -ℤ_zero_iff, eqb_ℤ, eqb_ℤ_iff}
use tally_agentic_memory.Prelude.Python.{Python}
use tally_agentic_memory.Judgment.{
  DayInput, DayOutcome, supported, rate_discrepancy, insufficient_evidence, excluded_not_chargeable,
  judge_day,
}

pub data Verdict (d : DayInput) : DayOutcome → ℤ → Type 0 where
  not_chargeable : d.chargeable ≡ false → Verdict d excluded_not_chargeable (pos 0)
  no_coverage :
      d.chargeable ≡ true
      → d.coverage_state ≢ "PRESENT_VERIFIED"
      → Verdict d insufficient_evidence (pos 0)
  no_rate :
      d.chargeable ≡ true → d.applicable_rate_minor ≡ none → Verdict d insufficient_evidence (pos 0)
  matches :
      d.chargeable ≡ true
      → d.coverage_state ≡ "PRESENT_VERIFIED"
      → d.applicable_rate_minor ≡ some d.invoice_rate_minor
      → Verdict d supported (pos 0)
  differs :
      (rate : ℤ)
      → d.chargeable ≡ true
      → d.coverage_state ≡ "PRESENT_VERIFIED"
      → d.applicable_rate_minor ≡ some rate
      → d.invoice_rate_minor ≢ rate
      → Verdict d rate_discrepancy (d.invoice_rate_minor -ℤ rate)

module _ (py : Python) (d : DayInput) where
  -- The outcome and the discrepancy of a judged day.
  abbrev pub outcome : DayOutcome
  outcome = (judge_day py d).outcome

  abbrev pub discrepancy : ℤ
  discrepancy = (judge_day py d).discrepancy_minor

  Verdict-unique : (o : DayOutcome) (x : ℤ) → Verdict d o x → (o ≡ outcome) × (x ≡ discrepancy)
  unfolding judge_day
  Verdict-unique o x (not_chargeable h) = ground arith
  Verdict-unique o x (no_coverage h c) = ground (arith, eq_iff d.coverage_state "PRESENT_VERIFIED")
  Verdict-unique o x (no_rate h c) = ground arith
  Verdict-unique o x (matches h c e) = ground (
    arith,
    eq_iff d.coverage_state "PRESENT_VERIFIED",
    -ℤ_zero_iff d.invoice_rate_minor d.invoice_rate_minor,
  )
  Verdict-unique o x (differs rate h c e n) = ground (
    arith,
    eq_iff d.coverage_state "PRESENT_VERIFIED",
    -ℤ_zero_iff d.invoice_rate_minor rate,
    eqb_ℤ_iff (d.invoice_rate_minor -ℤ rate) (pos 0),
  )

  transfer : {o : DayOutcome} {x : ℤ} → Verdict d o x → Verdict d outcome discrepancy
  transfer {o} {x} v = let (p, q) = Verdict-unique o x v in subst₂ (Verdict d) p q v

  covered-Verdict :
      (rate : ℤ)
      → d.chargeable ≡ true
      → d.coverage_state ≡ "PRESENT_VERIFIED"
      → d.applicable_rate_minor ≡ some rate
      → Verdict d outcome discrepancy
  covered-Verdict rate y c e = elim (Bool-cases (eqb_ℤ d.invoice_rate_minor rate)) [
    | inl p ↦ transfer (matches y c (rw ((eqb_ℤ_iff d.invoice_rate_minor rate).0 p) e))
    | inr n ↦
        transfer (differs rate y c e (λ p. ground (arith, eqb_ℤ_iff d.invoice_rate_minor rate)))
  ]

  Verdict-holds : Verdict d outcome discrepancy
  Verdict-holds = elim (Bool-cases d.chargeable) [
    | inr n ↦ transfer (not_chargeable n)
    | inl y ↦ elim (Bool-cases (str_eq d.coverage_state "PRESENT_VERIFIED")) [
      | inr n ↦
          transfer (no_coverage y (λ e. ground (arith, eq_iff d.coverage_state "PRESENT_VERIFIED")))
      | inl c ↦ elim (Option-cases d.applicable_rate_minor) [
        | inl e ↦ transfer (no_rate y e)
        | inr (rate, e) ↦
            covered-Verdict rate y ((eq_iff d.coverage_state "PRESENT_VERIFIED").0 c) e
      ]
    ]
  ]

  -- A judged day has the outcome and the discrepancy of the verdict that its description gives:
  -- excluded, withheld for coverage, withheld for a rate, matching, or differing by the bill less the
  -- rate. No other outcome or discrepancy fits the description.
  pub Verdict-exact :
      Verdict d outcome discrepancy
      × ((o : DayOutcome) (x : ℤ) → Verdict d o x → (o ≡ outcome) × (x ≡ discrepancy))
  Verdict-exact = (Verdict-holds, Verdict-unique)
