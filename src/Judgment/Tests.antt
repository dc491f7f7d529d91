-- ===== src/Judgment/Tests.antt =====
-- The invoices of the README, and the properties at concrete days.
use tally_agentic_memory.Prelude.{
  ◌≡◌, ◌≢◌, refl, true, some, List, [], ◌∷◌, arith, ℕ, ◌+◌, map, ◌↔◌, filter, any, length,
}
use tally_agentic_memory.Prelude.Int.{ℤ, pos, ◌+ℤ◌, ◌-ℤ◌, sum}
use tally_agentic_memory.Prelude.Result.{ok}
use tally_agentic_memory.Samples.{plain, marks-injective}
use tally_agentic_memory.Judgment.{
  DayInput, DayOutcome, Recommendation, ReasonCode, claimed_of, supported_of, disputed_of,
  withheld_of, type_of, reasons_of, dispute, approve_for_payment, missing_day_access_evidence,
  has_reason, resolve_recommendation, judge_day, recommend,
}
use tally_agentic_memory.Judgment.Day.{Verdict, outcome, discrepancy, Verdict-exact}
use tally_agentic_memory.Judgment.Balance.{recommendation_balance, undecided_of}
use tally_agentic_memory.Judgment.Outcome.{
  decision, expected_type, excess, coverage_counts, lacks_evidence, offset_approved,
  resolve_succeeds, SameCurrency,
}
use tally_agentic_memory.Judgment.Reasons.{reasons_exact, Distinct, gives}
use tally_agentic_memory.Judgment.Digest.{digest_pins, SameDecision, payload_of}

-- One day of June, billed at `billed`, with the rate 25000.
abbrev day : ℕ → ℕ → DayInput
day date billed = record {
  charge_date = date;
  invoice_rate_minor = pos billed;
  applicable_rate_minor = some (pos 25000);
  currency = "USD";
  coverage_state = "PRESENT_VERIFIED";
  chargeable = true;
  missing_requirements = [];
}

-- June 11 has no terminal access snapshot.
abbrev gap : DayInput
gap = record (day 11 35000) {
  coverage_state = "MISSING";
  missing_requirements = "TERMINAL_ACCESS" ∷ [];
}

abbrev hero : List DayInput
hero = map (λ d. day d 35000) (8 ∷ 9 ∷ 10 ∷ 11 ∷ 12 ∷ 13 ∷ 14 ∷ [])

abbrev partly : List DayInput
partly = day 10 35000 ∷ gap ∷ []

abbrev made : List DayInput → Recommendation
made days = recommend plain "USD" days (map (judge_day plain) days)

made-hero : resolve_recommendation plain hero ≡ ok (made hero)
unfolding resolve_recommendation
made-hero = refl

-- INV-1048: seven days at $350 against $250.
hero_disputed :
    ((made hero).recommendation_type ≡ dispute) × ((made hero).disputed_amount_minor ≡ pos 70000)
unfolding recommend judge_day disputed_of withheld_of type_of ◌+ℤ◌ ◌-ℤ◌
hero_disputed = (refl, refl)

partly_reasons : (made partly).reason_codes ≡ missing_day_access_evidence ∷ []
unfolding recommend judge_day reasons_of ◌-ℤ◌
partly_reasons = refl

made-partly : resolve_recommendation plain partly ≡ ok (made partly)
unfolding resolve_recommendation
made-partly = refl

Verdict-exact_example :
    Verdict gap (outcome plain gap) (discrepancy plain gap)
    × ((o : DayOutcome) (x : ℤ)
        → Verdict gap o x
        → (o ≡ outcome plain gap) × (x ≡ discrepancy plain gap))
Verdict-exact_example = Verdict-exact plain gap

recommendation_balance_example :
    (made partly).claimed_amount_minor
    ≡ (made partly).supported_amount_minor
      +ℤ (made partly).disputed_amount_minor
      +ℤ undecided_of (made partly).judgments
recommendation_balance_example = recommendation_balance plain partly (made partly) made-partly

decision_example :
    ((made hero).recommendation_type ≡ expected_type hero)
    × ((made hero).disputed_amount_minor ≡ sum (map excess hero))
decision_example = decision plain hero made-hero

coverage_counts_example :
    ((made partly).days_covered + length (filter lacks_evidence partly) ≡ (made partly).days_total)
    × ((made partly).days_total ≡ length (filter (λ d. d.chargeable) partly))
coverage_counts_example = coverage_counts plain partly made-partly

resolve_succeeds_example :
    ((r : Recommendation) × (resolve_recommendation plain partly ≡ ok r))
    ↔ ((partly ≢ []) × SameCurrency partly)
resolve_succeeds_example = resolve_succeeds plain partly

-- $100 too much on one day, $100 too little on the next.
abbrev offset : List DayInput
offset = day 8 35000 ∷ day 9 15000 ∷ []

made-offset : resolve_recommendation plain offset ≡ ok (made offset)
unfolding resolve_recommendation
made-offset = refl

offset_cancels : excess (day 8 35000) +ℤ excess (day 9 15000) ≡ pos 0
unfolding ◌+ℤ◌ ◌-ℤ◌
offset_cancels = refl

offset_approved_example : (made offset).recommendation_type ≡ approve_for_payment
offset_approved_example =
    offset_approved plain (day 8 35000) (day 9 15000) made-offset refl refl refl offset_cancels

reasons_exact_example :
    Distinct (made partly).reason_codes
    × ((c : ReasonCode) → has_reason c (made partly).reason_codes ≡ any (gives c) partly)
reasons_exact_example =
    reasons_exact plain partly made-partly (((λ e. absurd (omega arith), tt), (tt, tt)))

-- The digest does not tell a missing source from an unavailable one.
abbrev partly' : List DayInput
partly' = day 10 35000 ∷ record gap { coverage_state = "UNAVAILABLE" } ∷ []

made-partly' : resolve_recommendation plain partly' ≡ ok (made partly')
unfolding resolve_recommendation
made-partly' = refl

one_payload : payload_of plain (made partly) ≡ payload_of plain (made partly')
unfolding payload_of recommend judge_day reasons_of claimed_of disputed_of supported_of withheld_of
    type_of ◌+ℤ◌ ◌-ℤ◌
one_payload = refl

one_digest : (made partly).digest ≡ (made partly').digest
unfolding recommend judge_day
one_digest = refl

digest_pins_example : SameDecision (made partly) (made partly')
digest_pins_example =
    digest_pins plain marks-injective partly partly' made-partly made-partly' (λ h. one_payload)
      one_digest
