-- ===== src/Rule/Candidate.antt =====
-- src/core/applicable_rule.py: the validators of one candidate clause.
use tally_agentic_memory.Prelude.{
  ℕ, ◌+◌, ◌-◌, ◌*◌, ◌^◌, ltb, leb, String, Bool, true, false, not, ◌&&◌, ◌||◌, Option, none, some,
  List, [], ◌∷◌, filter, all, is_some, str_eq, if◌then◌else◌,
}
use tally_agentic_memory.Prelude.Int.{ℤ, pos, negsuc, ltb_ℤ, pos_part, neg_part}
use tally_agentic_memory.Prelude.Text.{
  codes, codes_eq, contains, strip, collapse, collapse_from, replace, replace_from,
}
use tally_agentic_memory.Prelude.Python.{concat}

-- A finite or undefined `Decimal`: the sign, the coefficient and the exponent of ten.
pub data Decimal : Type 0 where
  finite : Bool → ℕ → ℤ → Decimal
  nan : Decimal

pub data CandidateState : Type 0 where
  retrieved accepted rejected : CandidateState

pub record RuleCandidate : Type 0 where
  pub clause_id : String
  pub public_ref : String
  pub clause_ref : String
  pub rank : ℤ
  pub distance : ℕ  -- the bits of the float
  pub clause_text : String
  pub display_excerpt : String
  pub rate_amount : Option Decimal
  pub rate_currency : Option String
  pub rate_unit : Option String
  pub effective_from : Option ℕ
  pub effective_to : Option ℕ
  pub scope_code : String
  pub equipment_type : Option String
  pub route_code : Option String
  pub service_context : Option String
  pub verification_status : String
  pub source_locator : String
  pub superseded : Bool

pub record ApplicabilityQuery : Type 0 where
  pub charged_dates : List ℕ
  pub invoice_currency : String
  pub expected_unit : String
  pub scope_code : String
  pub expected_rate_phrase : String
  pub equipment_type : Option String
  pub route_code : Option String

pub record CandidateValidation : Type 0 where
  pub candidate : RuleCandidate
  pub state : CandidateState
  pub results : List (String × String)
  pub rejection_code : Option String
  pub rate_minor : Option ℤ

-- `str.lower` and `str.upper`, which read the Unicode tables.
pub record Cases : Type 0 where
  pub lower : List ℕ → List ℕ
  pub upper : String → String

-- `int(amount * 100)`, where the amount is not negative and has at most two decimals.
unfoldable pub minor_units : Decimal → Option ℤ
minor_units nan = none
minor_units (finite negative coefficient exponent) =
    if negative && ltb 0 coefficient || ltb_ℤ exponent (negsuc 1)
    then none
    else some (pos (coefficient * 10 ^ (pos_part exponent + 2 - neg_part exponent)))

unfoldable pub rate_minor_of : Option Decimal → Option ℤ
unfolding minor_units
rate_minor_of none = none
rate_minor_of (some amount) = minor_units amount

unfoldable pub covers_date : RuleCandidate → ℕ → ℕ → Bool
covers_date candidate from d =
    not (ltb d from) && elim candidate.effective_to [ none ↦ true | some to ↦ not (ltb to d) ]

unfoldable pub covers_all_dates : RuleCandidate → List ℕ → Bool
unfolding covers_date
covers_all_dates candidate dates = elim candidate.effective_from [
  | none ↦ false
  | some from ↦ all (covers_date candidate from) dates
]

-- `asked and given not in (None, asked)`, negated.
unfoldable pub optional_match : Option String → Option String → Bool
optional_match none given = true
optional_match (some asked) given =
    str_eq asked "" || elim given [ none ↦ true | some g ↦ str_eq g asked ]

unfoldable pub scope_matches : RuleCandidate → ApplicabilityQuery → Bool
unfolding optional_match
scope_matches candidate query =
    str_eq candidate.scope_code query.scope_code
    && (optional_match query.equipment_type candidate.equipment_type
        && optional_match query.route_code candidate.route_code)

abbrev pub is_lower : ℕ → Bool
is_lower c = leb b'a' c && leb c b'z'

-- The validators, in the order in which the first failure is reported.
abbrev pub validators : List String
validators =
    "source_version" ∷ "exact_text" ∷ "exact_rate" ∷ "currency" ∷ "unit" ∷ "effective_date"
    ∷ "scope" ∷ "supersession" ∷ "boundary_semantics" ∷ []

unfoldable pub mark : Bool → String
mark passed = if passed then "VERIFIED" else "FAILED"

-- `results.get(v)`
abbrev pub result_of : List (String × String) → String → Option String
result_of [] v = none
result_of ((w, r) ∷ results) v = if str_eq w v then some r else result_of results v

unfoldable pub verified : Option String → Bool
verified none = false
verified (some r) = str_eq r "VERIFIED"

unfoldable pub failed_of : List (String × String) → List String
failed_of results = filter (λ v. not (verified (result_of results v))) validators

module _ (cases : Cases) where
  unfoldable pub normalize : String → List ℕ
  unfolding strip collapse_from
  normalize text = collapse (cases.lower (strip (codes text)))

  unfoldable pub norm_unit : Option String → List ℕ
  unfolding replace_from
  norm_unit none = []
  norm_unit (some unit) =
      if str_eq unit ""
      then []
      else replace (codes "percalendarday") (codes "calendarday")
          (filter is_lower (cases.lower (codes unit)))

  unfoldable pub rejection_code_of : String → String
  rejection_code_of validator =
      if str_eq validator "effective_date"
      then "REJECTED_WRONG_DATE"
      else if str_eq validator "exact_text"
      then "REJECTED_TEXT_MISMATCH"
      else if str_eq validator "scope"
      then "REJECTED_SCOPE_MISMATCH"
      else if str_eq validator "source_version"
      then "VERSION_UNAVAILABLE"
      else concat ("REJECTED_" ∷ cases.upper validator ∷ [])

  -- The nine conditions.
  abbrev pub version_ok : RuleCandidate → Bool
  version_ok candidate = str_eq candidate.verification_status "VERIFIED"

  abbrev pub text_ok : RuleCandidate → ApplicabilityQuery → Bool
  text_ok candidate query =
      contains (normalize query.expected_rate_phrase) (normalize candidate.clause_text)

  abbrev pub currency_ok : RuleCandidate → ApplicabilityQuery → Bool
  currency_ok candidate query =
      str_eq (cases.upper (elim candidate.rate_currency [ none ↦ "" | some c ↦ c ]))
        (cases.upper query.invoice_currency)

  abbrev pub unit_ok : RuleCandidate → ApplicabilityQuery → Bool
  unit_ok candidate query =
      codes_eq (norm_unit candidate.rate_unit) (norm_unit (some query.expected_unit))

  -- The dictionary `results`, in the order of the assignments.
  unfoldable pub results_of : RuleCandidate → ApplicabilityQuery → List (String × String)
  results_of candidate query =
      ("source_version", mark (version_ok candidate))
      ∷ ("supersession", mark (not candidate.superseded))
      ∷ ("exact_text", mark (text_ok candidate query))
      ∷ ("exact_rate", mark (is_some (rate_minor_of candidate.rate_amount)))
      ∷ ("currency", mark (currency_ok candidate query))
      ∷ ("unit", mark (unit_ok candidate query))
      ∷ ("effective_date", mark (covers_all_dates candidate query.charged_dates))
      ∷ ("scope", mark (scope_matches candidate query))
      ∷ (
        "boundary_semantics",
        mark (is_some candidate.effective_from && verified (some (mark (unit_ok candidate query)))),
      )
      ∷ []

  -- The state and the rejection code that a list of failed validators gives.
  unfoldable pub verdict_of : List String → CandidateState × Option String
  unfolding rejection_code_of
  verdict_of [] = (accepted, none)
  verdict_of (first ∷ rest) = (rejected, some (rejection_code_of first))

  unfoldable pub validate_candidate : RuleCandidate → ApplicabilityQuery → CandidateValidation
  unfolding verdict_of
  validate_candidate candidate query =
      let results = results_of candidate query in
      let (state, code) = verdict_of (failed_of results) in
      record {
        candidate = candidate;
        state = state;
        results = results;
        rejection_code = code;
        rate_minor = rate_minor_of candidate.rate_amount;
      }
