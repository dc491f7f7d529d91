-- ===== src/Judgment/Outcome.antt =====
-- The recommendation as a function of the days alone.
use mathlib.Core.Path.{subst}
use tally_agentic_memory.Prelude.{
  ◌≡◌, sym, ap, ◌∙◌, ◌+◌, refl, Bool, true, false, not, none, some, List, [], ◌∷◌, map, filter, any,
  all, All, length, ◌≢◌, ◌↔◌, eq_iff, str_eq, arith, ◌&&◌, ◌||◌, is_some, if◌then◌else◌, String,
  ◌==◌,
}
use tally_agentic_memory.Prelude.Int.{ℤ, pos, ◌+ℤ◌, ◌-ℤ◌, sum, ltb_ℤ, +ℤ_zero_right}
use tally_agentic_memory.Prelude.Result.{ok}
use tally_agentic_memory.Prelude.Python.{Python}
use tally_agentic_memory.Judgment.{
  DayInput, Recommendation, RecommendationType, dispute, approve_for_payment, request_evidence,
  is_insufficient, is_chargeable, is_discrepancy, is_verified, judge_day, disputed_of, total_of,
  covered_of, withheld_of, type_of, recommend, resolve_recommendation,
}
use tally_agentic_memory.Judgment.Balance.{resolve_inverse, disputed_of-cons}

-- A chargeable day with no verified source or no rate.
abbrev pub lacks_evidence : DayInput → Bool
lacks_evidence d =
    d.chargeable && not (is_verified d.coverage_state && is_some d.applicable_rate_minor)

-- How far the bill of one day exceeds its rate; negative where the bill is lower.
abbrev pub excess : DayInput → ℤ
excess d =
    if d.chargeable && is_verified d.coverage_state
    then elim d.applicable_rate_minor [ none ↦ pos 0 | some rate ↦ d.invoice_rate_minor -ℤ rate ]
    else pos 0

abbrev pub expected_type : List DayInput → RecommendationType
expected_type days =
    if any lacks_evidence days || all (λ d. not d.chargeable) days
    then request_evidence
    else if ltb_ℤ (pos 0) (sum (map excess days))
    then dispute
    else approve_for_payment

module _ (py : Python) where
  pub insufficient-judge : (d : DayInput) → is_insufficient (judge_day py d) ≡ lacks_evidence d
  unfolding judge_day
  insufficient-judge d = ground arith

  pub chargeable-judge : (d : DayInput) → is_chargeable (judge_day py d) ≡ d.chargeable
  unfolding judge_day
  chargeable-judge d = ground arith

  excess-judge :
      (d : DayInput)
      → (if is_discrepancy (judge_day py d) then (judge_day py d).discrepancy_minor else pos 0)
        ≡ excess d
  unfolding judge_day
  excess-judge d = ground (arith)

  pub any-insufficient :
      (days : List DayInput)
      → any is_insufficient (filter is_chargeable (map (judge_day py) days))
        ≡ any lacks_evidence days
  any-insufficient [] = refl
  any-insufficient (d ∷ days) =
      ground (arith, any-insufficient days, insufficient-judge d, chargeable-judge d)

  total-zero :
      (days : List DayInput)
      → (total_of (map (judge_day py) days) == 0) ≡ all (λ d. not d.chargeable) days
  unfolding total_of
  total-zero [] = refl
  total-zero (d ∷ days) = ground (arith, total-zero days, chargeable-judge d)

  disputed-excess :
      (days : List DayInput) → disputed_of (map (judge_day py) days) ≡ sum (map excess days)
  disputed-excess [] = unfold disputed_of in refl
  disputed-excess (d ∷ days) = rw (
    disputed_of-cons (judge_day py d) (map (judge_day py) days),
    excess-judge d,
    disputed-excess days,
  )

  covered-lacking :
      (days : List DayInput)
      → covered_of (map (judge_day py) days) + length (filter lacks_evidence days)
        ≡ total_of (map (judge_day py) days)
  unfolding covered_of total_of
  covered-lacking [] = omega arith
  covered-lacking (d ∷ days) =
      ground (arith, covered-lacking days, insufficient-judge d, chargeable-judge d)

  total-chargeable :
      (days : List DayInput)
      → total_of (map (judge_day py) days) ≡ length (filter (λ d. d.chargeable) days)
  unfolding total_of
  total-chargeable [] = refl
  total-chargeable (d ∷ days) = ground (arith, total-chargeable days, chargeable-judge d)

module _ (py : Python) (days : List DayInput) {r : Recommendation}
    (resolved : resolve_recommendation py days ≡ ok r) where
  -- The type of a recommendation that is made is the one that the days alone determine: evidence is
  -- requested exactly if a chargeable day lacks a verified source or a rate, or no day is
  -- chargeable; else it is a dispute exactly if the bills exceed the rates in sum. The disputed
  -- amount is that sum, day by day.
  pub decision :
      (r.recommendation_type ≡ expected_type days)
      × (r.disputed_amount_minor ≡ sum (map excess days))
  unfolding recommend withheld_of type_of
  decision =
      let (currency, e) = resolve_inverse py days resolved in
      rw e (rw (any-insufficient py days, total-zero py days, disputed-excess py days) (refl, refl))

  -- The chargeable days of a recommendation are counted in `days_total`, and all of them but those
  -- that lack evidence in `days_covered`.
  pub coverage_counts :
      (r.days_covered + length (filter lacks_evidence days) ≡ r.days_total)
      × (r.days_total ≡ length (filter (λ d. d.chargeable) days))
  unfolding recommend
  coverage_counts =
      let (currency, e) = resolve_inverse py days resolved in
      rw e (covered-lacking py days, total-chargeable py days)

abbrev pub SameCurrency : List DayInput → Type 0
SameCurrency days = (currency : String) × All (λ d. d.currency ≡ currency) days

mismatch : String → DayInput → Bool
mismatch currency d = not (str_eq d.currency currency)

no_mismatch :
    (currency : String) (days : List DayInput)
    → (any (mismatch currency) days ≡ false) ↔ All (λ d. d.currency ≡ currency) days
unfolding mismatch
no_mismatch currency [] = (λ h. tt, λ h. refl)
no_mismatch currency (d ∷ days) =
    let (to, from) = no_mismatch currency days in
    (
      λ h. (ground (arith, eq_iff d.currency currency), to (ground arith)),
      λ h. ground (arith, eq_iff d.currency currency, from h.1),
    )

resolve_sound :
    (py : Python) (days : List DayInput)
    → ((r : Recommendation) × (resolve_recommendation py days ≡ ok r))
    → (days ≢ []) × SameCurrency days
unfolding resolve_recommendation mismatch
resolve_sound py [] (r, h) = absurd (ground arith)
resolve_sound py (d ∷ days) (r, h) =
    (λ e. cc, (d.currency, (no_mismatch d.currency (d ∷ days)).0 (ground arith)))

resolve_complete :
    (py : Python) (days : List DayInput)
    → days ≢ []
    → SameCurrency days
    → (r : Recommendation) × (resolve_recommendation py days ≡ ok r)
unfolding resolve_recommendation mismatch
resolve_complete py [] n s = absurd (n refl)
resolve_complete py (d ∷ days) n (currency, s) =
    let same = subst (λ c. All (λ e. e.currency ≡ c) (d ∷ days)) (sym s.0) s in
    let agree = (no_mismatch d.currency (d ∷ days)).1 same in
    (recommend py d.currency (d ∷ days) (map (judge_day py) (d ∷ days)), rw agree refl)

-- A recommendation is made exactly for a list of days that is not empty and bears one currency.
pub resolve_succeeds :
    (py : Python) (days : List DayInput)
    → ((r : Recommendation) × (resolve_recommendation py days ≡ ok r))
      ↔ ((days ≢ []) × SameCurrency days)
resolve_succeeds py days = (resolve_sound py days, λ h. resolve_complete py days h.0 h.1)

-- Two covered days whose bills miss their rates by opposite amounts are approved for payment, though
-- neither bill matches its rate.
pub offset_approved :
    (py : Python) (a b : DayInput) {r : Recommendation}
    → resolve_recommendation py (a ∷ b ∷ []) ≡ ok r
    → a.chargeable ≡ true
    → lacks_evidence a ≡ false
    → lacks_evidence b ≡ false
    → excess a +ℤ excess b ≡ pos 0
    → r.recommendation_type ≡ approve_for_payment
offset_approved py a b h c la lb e =
    let total : sum (map excess (a ∷ b ∷ [])) ≡ pos 0 =
      ap (λ x. excess a +ℤ x) (+ℤ_zero_right (excess b)) ∙ e in
    (decision py (a ∷ b ∷ []) h).0 ∙ rw (total, la, lb, c)
