-- ===== src/Judgment.antt =====
-- src/core/judgment.py: one judgment for each charged day, and one recommendation. Money is in
-- integer minor units and a date is its proleptic ordinal. The proofs are in the modules below.
pub mod Day
pub mod Balance
pub mod Outcome
pub mod Reasons
pub mod Digest
mod Tests
use tally_agentic_memory.Prelude.{
  ℕ, ◌+◌, ◌==◌, String, Bool, true, false, not, ◌&&◌, ◌||◌, Option, none, some, List, [], ◌∷◌, ◌++◌,
  map, length, filter, any, find_last, is_empty, is_some, str_eq, if◌then◌else◌,
}
use tally_agentic_memory.Prelude.Int.{ℤ, pos, ◌-ℤ◌, ltb_ℤ, eqb_ℤ, sum}
use tally_agentic_memory.Prelude.Json.{Json, null, int, str, arr, obj, end, field, items, optional}
use tally_agentic_memory.Prelude.Json
use tally_agentic_memory.Prelude.Result.{Result, ok, err}
use tally_agentic_memory.Prelude.Python.{Python, concat}

pub data DayOutcome : Type 0 where
  supported rate_discrepancy insufficient_evidence excluded_not_chargeable : DayOutcome

pub data RecommendationType : Type 0 where
  dispute approve_for_payment request_evidence : RecommendationType

pub data ReasonCode : Type 0 where
  missing_day_source missing_day_access_evidence rule_not_verified : ReasonCode
  source_version_unavailable source_integrity_failed : ReasonCode

pub record DayInput : Type 0 where
  pub charge_date : ℕ
  pub invoice_rate_minor : ℤ
  pub applicable_rate_minor : Option ℤ
  pub currency : String
  pub coverage_state : String
  pub chargeable : Bool
  pub missing_requirements : List String

pub record DayJudgment : Type 0 where
  pub charge_date : ℕ
  pub invoice_rate_minor : ℤ
  pub applicable_rate_minor : Option ℤ
  pub discrepancy_minor : ℤ
  pub currency : String
  pub outcome : DayOutcome
  pub explanation : String

pub record Recommendation : Type 0 where
  pub recommendation_type : RecommendationType
  pub disputed_amount_minor : ℤ
  pub supported_amount_minor : ℤ
  pub claimed_amount_minor : ℤ
  pub currency : String
  pub days_total : ℕ
  pub days_covered : ℕ
  pub evidence_coverage : String
  pub judgments : List DayJudgment
  pub reason_codes : List ReasonCode
  pub digest : String
  pub summary : String

-- `.value` of the enumerations
unfoldable pub outcome_value : DayOutcome → String
outcome_value supported = "SUPPORTED"
outcome_value rate_discrepancy = "RATE_DISCREPANCY"
outcome_value insufficient_evidence = "INSUFFICIENT_EVIDENCE"
outcome_value excluded_not_chargeable = "EXCLUDED_NOT_CHARGEABLE"

unfoldable pub type_value : RecommendationType → String
type_value dispute = "DISPUTE"
type_value approve_for_payment = "APPROVE_FOR_PAYMENT"
type_value request_evidence = "REQUEST_EVIDENCE"

unfoldable pub reason_value : ReasonCode → String
reason_value missing_day_source = "MISSING_DAY_SOURCE"
reason_value missing_day_access_evidence = "MISSING_DAY_ACCESS_EVIDENCE"
reason_value rule_not_verified = "RULE_NOT_VERIFIED"
reason_value source_version_unavailable = "SOURCE_VERSION_UNAVAILABLE"
reason_value source_integrity_failed = "SOURCE_INTEGRITY_FAILED"

-- The tests `j.outcome is …`.
abbrev pub is_excluded : DayJudgment → Bool
is_excluded j = elim j.outcome [ excluded_not_chargeable ↦ true | _ ↦ false ]

abbrev pub is_insufficient : DayJudgment → Bool
is_insufficient j = elim j.outcome [ insufficient_evidence ↦ true | _ ↦ false ]

abbrev pub is_discrepancy : DayJudgment → Bool
is_discrepancy j = elim j.outcome [ rate_discrepancy ↦ true | _ ↦ false ]

abbrev pub is_rated : DayJudgment → Bool
is_rated j = elim j.outcome [ supported ↦ true | rate_discrepancy ↦ true | _ ↦ false ]

abbrev pub is_chargeable : DayJudgment → Bool
is_chargeable j = not (is_excluded j)

abbrev pub is_verified : String → Bool
is_verified coverage = str_eq coverage "PRESENT_VERIFIED"

abbrev pub same_reason : ReasonCode → ReasonCode → Bool
same_reason missing_day_source missing_day_source = true
same_reason missing_day_access_evidence missing_day_access_evidence = true
same_reason rule_not_verified rule_not_verified = true
same_reason source_version_unavailable source_version_unavailable = true
same_reason source_integrity_failed source_integrity_failed = true
same_reason _ _ = false

-- `x in reasons`
abbrev pub has_reason : ReasonCode → List ReasonCode → Bool
has_reason code = any (same_reason code)

abbrev pub has_text : String → List String → Bool
has_text s = any (str_eq s)

-- The rate that the supported sum takes from a judgment.
abbrev pub rate_or_zero : Option ℤ → ℤ
rate_or_zero none = pos 0
rate_or_zero (some rate) = rate

judged : DayInput → ℤ → DayOutcome → String → DayJudgment
judged day discrepancy outcome explanation = record {
  charge_date = day.charge_date;
  invoice_rate_minor = day.invoice_rate_minor;
  applicable_rate_minor = day.applicable_rate_minor;
  discrepancy_minor = discrepancy;
  currency = day.currency;
  outcome = outcome;
  explanation = explanation;
}

insufficient : DayInput → DayJudgment
unfolding judged
insufficient day =
    judged day (pos 0) insufficient_evidence
      "Source coverage or applicable rate is missing for this day."

-- The three sums and the two counts of `resolve_recommendation`.
unfoldable pub claimed_of : List DayJudgment → ℤ
claimed_of judgments = sum (map (λ j. j.invoice_rate_minor) (filter is_chargeable judgments))

unfoldable pub disputed_of : List DayJudgment → ℤ
disputed_of judgments = sum (map (λ j. j.discrepancy_minor) (filter is_discrepancy judgments))

unfoldable pub supported_of : List DayJudgment → ℤ
supported_of judgments = sum (
    map (λ j. rate_or_zero j.applicable_rate_minor)
      (filter (λ j. is_rated j && is_some j.applicable_rate_minor) judgments))

unfoldable pub total_of : List DayJudgment → ℕ
total_of judgments = length (filter is_chargeable judgments)

unfoldable pub covered_of : List DayJudgment → ℕ
covered_of judgments =
    length (filter (λ j. not (is_insufficient j)) (filter is_chargeable judgments))

-- `src` is `by_day.get(j.charge_date)`.
unfoldable pub reason_of : Option DayInput → ReasonCode
reason_of none = rule_not_verified
reason_of (some src) =
    if not (is_verified src.coverage_state)
    then (if has_text "TERMINAL_ACCESS" src.missing_requirements
        then missing_day_access_evidence
        else missing_day_source)
    else rule_not_verified

-- The loop that collects the reasons, each once, in the order of their first day.
unfoldable pub reasons_from : List DayInput → List ReasonCode → List DayJudgment → List ReasonCode
unfolding reason_of
reasons_from days reason [] = reason
reasons_from days reason (j ∷ rest) =
    let code = reason_of (find_last (λ d. d.charge_date == j.charge_date) days) in
    reasons_from days
      (if is_insufficient j && not (has_reason code reason) then reason ++ code ∷ [] else reason)
      rest

unfoldable pub reasons_of : List DayInput → List DayJudgment → List ReasonCode
unfolding reasons_from
reasons_of days judgments = reasons_from days [] (filter is_chargeable judgments)

unfoldable pub type_of : Bool → ℤ → RecommendationType
type_of withheld disputed =
    if withheld
    then request_evidence
    else if ltb_ℤ (pos 0) disputed
    then dispute
    else approve_for_payment

-- `has_insufficient or days_total == 0`
unfoldable pub withheld_of : List DayJudgment → Bool
unfolding total_of
withheld_of judgments =
    any is_insufficient (filter is_chargeable judgments) || total_of judgments == 0

module _ (py : Python) where
  fmt : ℤ → String → String
  fmt minor currency = concat (currency ∷ " " ∷ py.fixed2 minor ∷ [])

  unfoldable pub judge_day : DayInput → DayJudgment
  unfolding judged insufficient fmt
  judge_day day =
      if not day.chargeable
      then judged day (pos 0) excluded_not_chargeable
          "Day is not chargeable under the sourced timeline."
      else if not (is_verified day.coverage_state)
      then insufficient day
      else elim day.applicable_rate_minor [
        | none ↦ insufficient day
        | some rate ↦
            let discrepancy = day.invoice_rate_minor -ℤ rate in
            if eqb_ℤ discrepancy (pos 0)
            then judged day (pos 0) supported "Invoice rate matches the applicable recorded tariff."
            else judged day discrepancy rate_discrepancy (
                concat (
                  "Invoice rate exceeds the applicable tariff by "
                  ∷ fmt discrepancy day.currency
                  ∷ " for this day."
                  ∷ []))
      ]

  summary_of : RecommendationType → ℤ → ℤ → String → ℕ → String
  unfolding fmt
  summary_of request_evidence disputed supported_sum currency total =
      "Evidence is incomplete; requesting evidence before deciding."
  summary_of dispute disputed supported_sum currency total = concat (
      "Dispute "
      ∷ fmt disputed currency
      ∷ " across "
      ∷ py.decimal (pos total)
      ∷ " sourced days."
      ∷ [])
  summary_of approve_for_payment disputed supported_sum currency total =
      concat ("Approve " ∷ fmt supported_sum currency ∷ " for payment; rates match." ∷ [])

  unfoldable pub digest_day : DayJudgment → Json
  unfolding outcome_value
  digest_day j = obj (
      field "d" (str (py.isoformat j.charge_date))
        (field "o" (str (outcome_value j.outcome)) (field "disc" (int j.discrepancy_minor) end)))

  unfoldable pub digest_payload :
      RecommendationType → ℤ → ℤ → ℤ → String → List DayJudgment → List ReasonCode → Json
  unfolding type_value reason_value digest_day
  digest_payload rec_type disputed supported_sum claimed currency judgments reasons = obj (
      field "type" (str (type_value rec_type)) (
        field "disputed" (int disputed) (
          field "supported" (int supported_sum) (
            field "claimed" (int claimed) (
              field "currency" (str currency) (
                field "reasons" (arr (items (λ r. str (reason_value r)) reasons))
                  (field "days" (arr (items digest_day judgments)) end)))))))

  unfoldable pub recommend : String → List DayInput → List DayJudgment → Recommendation
  unfolding summary_of digest_payload
  recommend currency days judgments =
      let claimed = claimed_of judgments in
      let disputed = disputed_of judgments in
      let supported_sum = supported_of judgments in
      let total = total_of judgments in
      let covered = covered_of judgments in
      let reasons = reasons_of days judgments in
      let rec_type = type_of (withheld_of judgments) disputed in
      record {
        recommendation_type = rec_type;
        disputed_amount_minor = disputed;
        supported_amount_minor = supported_sum;
        claimed_amount_minor = claimed;
        currency = currency;
        days_total = total;
        days_covered = covered;
        evidence_coverage =
            concat (py.decimal (pos covered) ∷ " of " ∷ py.decimal (pos total) ∷ " days" ∷ []);
        judgments = judgments;
        reason_codes = reasons;
        digest = concat (
            "sha256:"
            ∷ py.sha256_json
                (digest_payload rec_type disputed supported_sum claimed currency judgments reasons)
            ∷ []);
        summary = summary_of rec_type disputed supported_sum currency total;
      }

  unfoldable pub resolve_recommendation : List DayInput → Result String Recommendation
  unfolding recommend
  resolve_recommendation [] = err "NO_CHARGED_DAYS"
  resolve_recommendation (first ∷ rest) =
      if any (λ d. not (str_eq d.currency first.currency)) (first ∷ rest)
      then err "CURRENCY_MISMATCH"
      else ok (recommend first.currency (first ∷ rest) (map judge_day (first ∷ rest)))

  fingerprint_day : DayInput → Json
  fingerprint_day d = obj (
      field "d" (str (py.isoformat d.charge_date)) (
        field "inv" (int d.invoice_rate_minor) (
          field "app" (optional int d.applicable_rate_minor) (
            field "cur" (str d.currency)
              (field "cov" (str d.coverage_state) (field "chg" (Json.bool d.chargeable) end))))))

  unfoldable pub recommendation_fingerprint : List DayInput → String
  unfolding fingerprint_day
  recommendation_fingerprint days = py.sha256_json (arr (items fingerprint_day days))
