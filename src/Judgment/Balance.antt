-- ===== src/Judgment/Balance.antt =====
-- The sums of a recommendation.
use tally_agentic_memory.Prelude.{
  ◌≡◌, Bool, List, [], ◌∷◌, map, filter, arith, ◌&&◌, is_some, if◌then◌else◌, String,
}
use tally_agentic_memory.Prelude.Int.{
  ℤ, pos, ◌+ℤ◌, ◌-ℤ◌, sum, int_laws, +ℤ_zero_left, +ℤ_zero_right, +ℤ-sub, +ℤ_lines, -ℤ_zero_iff,
  eqb_ℤ_iff,
}
use tally_agentic_memory.Prelude.Result.{ok}
use tally_agentic_memory.Prelude.Python.{Python}
use tally_agentic_memory.Judgment.{
  Recommendation, resolve_recommendation, recommend, DayInput, DayJudgment, is_insufficient,
  is_chargeable, is_discrepancy, is_rated, rate_or_zero, judge_day, claimed_of, disputed_of,
  supported_of,
}

-- What the chargeable days without evidence were billed at.
unfoldable pub undecided_of : List DayJudgment → ℤ
undecided_of judgments = sum (map (λ j. j.invoice_rate_minor) (filter is_insufficient judgments))

-- What one judgment adds to each sum.
abbrev line : Bool → ℤ → ℤ
line b x = if b then x else pos 0

abbrev rated : DayJudgment → Bool
rated j = is_rated j && is_some j.applicable_rate_minor

module _ (j : DayJudgment) (js : List DayJudgment) where
  claimed_of-cons :
      claimed_of (j ∷ js) ≡ line (is_chargeable j) j.invoice_rate_minor +ℤ claimed_of js
  unfolding claimed_of
  claimed_of-cons = ground (arith, +ℤ_zero_left (claimed_of js))

  pub disputed_of-cons :
      disputed_of (j ∷ js) ≡ line (is_discrepancy j) j.discrepancy_minor +ℤ disputed_of js
  unfolding disputed_of
  disputed_of-cons = ground (arith, +ℤ_zero_left (disputed_of js))

  supported_of-cons :
      supported_of (j ∷ js)
      ≡ line (rated j) (rate_or_zero j.applicable_rate_minor) +ℤ supported_of js
  unfolding supported_of
  supported_of-cons = ground (arith, +ℤ_zero_left (supported_of js))

  undecided_of-cons :
      undecided_of (j ∷ js) ≡ line (is_insufficient j) j.invoice_rate_minor +ℤ undecided_of js
  unfolding undecided_of
  undecided_of-cons = ground (arith, +ℤ_zero_left (undecided_of js))

module _ (py : Python) where
  line_balance :
      (d : DayInput)
      → let j = judge_day py d in
        line (is_chargeable j) j.invoice_rate_minor
        ≡ line (rated j) (rate_or_zero j.applicable_rate_minor)
          +ℤ line (is_discrepancy j) j.discrepancy_minor
          +ℤ line (is_insufficient j) j.invoice_rate_minor
  unfolding judge_day
  line_balance d =
      let inv = d.invoice_rate_minor in
      let rate = rate_or_zero d.applicable_rate_minor in
      ground (
        arith,
        +ℤ-sub inv rate,
        -ℤ_zero_iff inv rate,
        eqb_ℤ_iff (inv -ℤ rate) (pos 0),
        +ℤ_zero_left inv,
        +ℤ_zero_left (pos 0),
        +ℤ_zero_right inv,
        +ℤ_zero_right rate,
      )

  balance :
      (days : List DayInput)
      → let js = map (judge_day py) days in
        claimed_of js ≡ supported_of js +ℤ disputed_of js +ℤ undecided_of js
  balance [] = unfold claimed_of supported_of disputed_of undecided_of in omega int_laws
  balance (d ∷ days) =
      let j = judge_day py d in
      let js = map (judge_day py) days in
      rw
        (
          claimed_of-cons j js,
          supported_of-cons j js,
          disputed_of-cons j js,
          undecided_of-cons j js,
        )
        (+ℤ_lines _ _ _ _ _ _ _ _ (line_balance d) (balance days))

-- The judgments that a recommendation carries are those of its days.
pub resolve_inverse :
    (py : Python) (days : List DayInput) {r : Recommendation}
    → resolve_recommendation py days ≡ ok r
    → (currency : String) × (r ≡ recommend py currency days (map (judge_day py) days))
unfolding resolve_recommendation
resolve_inverse py [] h = absurd (ground arith)
resolve_inverse py (first ∷ rest) h = (first.currency, ground arith)

module _ (py : Python) (days : List DayInput) (r : Recommendation)
    (resolved : resolve_recommendation py days ≡ ok r) where
  -- The claimed amount is the supported amount, the disputed amount and what the chargeable days
  -- without evidence were billed at, for every recommendation that is made.
  pub recommendation_balance :
      r.claimed_amount_minor
      ≡ r.supported_amount_minor +ℤ r.disputed_amount_minor +ℤ undecided_of r.judgments
  unfolding recommend
  recommendation_balance =
      let (currency, e) = resolve_inverse py days resolved in rw e (balance py days)
