-- ===== src/Rule/Decide.antt =====
-- src/core/applicable_rule.py: the decision over all candidates.
use tally_agentic_memory.Prelude.{
  ℕ, ltb, Bool, true, false, not, Option, none, some, List, [], ◌∷◌, map, filter, any, String,
  if◌then◌else◌,
}
use tally_agentic_memory.Prelude.Int.{ℤ, ltb_ℤ, eqb_ℤ}
use tally_agentic_memory.Prelude.Python.{Python, concat}
use tally_agentic_memory.Rule.Candidate.{
  RuleCandidate, ApplicabilityQuery, CandidateState, CandidateValidation, Cases, validate_candidate,
}

pub data RuleValidationState : Type 0 where
  verified rejected conflicted : RuleValidationState

pub record ApplicabilityDecision : Type 0 where
  pub state : RuleValidationState
  pub accepted : Option CandidateValidation
  pub candidate_validations : List CandidateValidation
  pub public_error : Option String

abbrev pub is_accepted : CandidateValidation → Bool
is_accepted v = elim v.state [ CandidateState.accepted ↦ true | _ ↦ false ]

-- Equality of two rates, where `None` equals itself.
abbrev pub same_rate : Option ℤ → Option ℤ → Bool
same_rate none none = true
same_rate none (some b) = false
same_rate (some a) none = false
same_rate (some a) (some b) = eqb_ℤ a b

-- `min(vs, key=lambda v: v.candidate.rank)`: the first of those with the least rank.
unfoldable pub best_from : CandidateValidation → List CandidateValidation → CandidateValidation
best_from best [] = best
best_from best (v ∷ vs) =
    best_from (if ltb_ℤ v.candidate.rank best.candidate.rank then v else best) vs

-- The decision over the accepted validations: more than one distinct rate is a conflict.
unfoldable pub decide : List CandidateValidation → List CandidateValidation → ApplicabilityDecision
decide validations [] = record {
  state = rejected;
  accepted = none;
  candidate_validations = validations;
  public_error = some "NO_APPLICABLE_RULE";
}
decide validations (v ∷ vs) =
    if any (λ w. not (same_rate w.rate_minor v.rate_minor)) vs
    then record {
      state = conflicted;
      accepted = none;
      candidate_validations = validations;
      public_error = some "RULE_CONFLICT";
    }
    else record {
      state = verified;
      accepted = some (best_from v vs);
      candidate_validations = validations;
      public_error = none;
    }

unfoldable pub decide_applicable_rule :
    Cases → List RuleCandidate → ApplicabilityQuery → ApplicabilityDecision
unfolding decide best_from
decide_applicable_rule cases candidates query =
    let validations = map (λ c. validate_candidate cases c query) candidates in
    decide validations (filter is_accepted validations)

-- `min` and `max` of a tuple that is not empty.
abbrev pub min_from : ℕ → List ℕ → ℕ
min_from d [] = d
min_from d (e ∷ ds) = min_from (if ltb e d then e else d) ds

abbrev pub max_from : ℕ → List ℕ → ℕ
max_from d [] = d
max_from d (e ∷ ds) = max_from (if ltb d e then e else d) ds

-- `none` is the `ValueError` of `min` of no date.
unfoldable pub build_hero_query_text : Python → String → List ℕ → Option String
build_hero_query_text python scope_label [] = none
build_hero_query_text python scope_label (d ∷ ds) = some (
    concat (
      "demurrage calendar-day rate for "
      ∷ scope_label
      ∷ " during "
      ∷ python.isoformat (min_from d ds)
      ∷ " through "
      ∷ python.isoformat (max_from d ds)
      ∷ []))
