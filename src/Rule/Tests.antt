-- ===== src/Rule/Tests.antt =====
-- Concrete candidates, on which the theorems about the rule decision are applied.
use tally_agentic_memory.Prelude.{◌≡◌, ◌↔◌, refl, false, none, some, [], ◌∷◌}
use tally_agentic_memory.Prelude.Int.{pos, negsuc}
use tally_agentic_memory.Rule.Candidate.{
  RuleCandidate, ApplicabilityQuery, CandidateState, accepted, Cases, finite, rejection_code_of,
  validate_candidate, failed_of, results_of, mark, normalize, rate_minor_of, norm_unit,
  covers_all_dates, scope_matches,
}
use tally_agentic_memory.Prelude.Text.{contains}
use tally_agentic_memory.Rule.Decide.{RuleValidationState, decide_applicable_rule}
use tally_agentic_memory.Rule.Rejection.{FirstUnmet, demands, rejection_first}
use tally_agentic_memory.Rule.Applicable.{IsApplicable, validation, accepted-IsApplicable}
use tally_agentic_memory.Rule.Choice.{DecidesBy, decision_exact}

-- Texts that are in one case already.
abbrev same_case : Cases
same_case = record { lower = λ cs. cs; upper = λ s. s }

abbrev clause : RuleCandidate
clause = record {
  clause_id = "c-1";
  public_ref = "TARIFF-1";
  clause_ref = "4.2";
  rank = pos 1;
  distance = 12;
  clause_text = "the rate is  120.00 per calendar day";
  display_excerpt = "120.00 per calendar day";
  rate_amount = some (finite false 12000 (negsuc 1));
  rate_currency = some "USD";
  rate_unit = some "per calendar day";
  effective_from = some 19700;
  effective_to = none;
  scope_code = "IMPORT";
  equipment_type = none;
  route_code = some "R1";
  service_context = none;
  verification_status = "VERIFIED";
  source_locator = "p. 4";
  superseded = false;
}

abbrev late : RuleCandidate
late = record clause { rank = pos 0; effective_from = some 19790 }

abbrev dear : RuleCandidate
dear = record clause { rank = pos 2; rate_amount = some (finite false 15 (pos 1)) }

abbrev query : ApplicabilityQuery
query = record {
  charged_dates = 19783 ∷ 19784 ∷ [];
  invoice_currency = "USD";
  expected_unit = "calendar day";
  scope_code = "IMPORT";
  expected_rate_phrase = "120.00  per calendar day";
  equipment_type = some "40HC";
  route_code = none;
}

accepted-IsApplicable_example :
    ((validation same_case clause query).state ≡ accepted) ↔ IsApplicable same_case clause query
accepted-IsApplicable_example = accepted-IsApplicable same_case clause query

rejection_first_example :
    (((validation same_case late query).state ≡ accepted)
      ↔ ((validation same_case late query).rejection_code ≡ none))
    × FirstUnmet (demands same_case late query) (validation same_case late query).rejection_code
rejection_first_example = rejection_first same_case late query

decision_exact_example :
    DecidesBy same_case query
      (late ∷ clause ∷ [])
      (decide_applicable_rule same_case (late ∷ clause ∷ []) query)
decision_exact_example = decision_exact same_case query (late ∷ clause ∷ [])

chosen_test :
    (decide_applicable_rule same_case (late ∷ clause ∷ []) query).state
    ≡ RuleValidationState.verified
unfolding decide_applicable_rule validate_candidate failed_of
    tally_agentic_memory.Rule.Candidate.verified results_of mark contains normalize rate_minor_of
    norm_unit covers_all_dates scope_matches
chosen_test = refl

conflict_test :
    (decide_applicable_rule same_case (dear ∷ clause ∷ []) query).state
    ≡ RuleValidationState.conflicted
unfolding decide_applicable_rule validate_candidate failed_of
    tally_agentic_memory.Rule.Candidate.verified results_of mark contains normalize rate_minor_of
    norm_unit covers_all_dates scope_matches
conflict_test = refl
