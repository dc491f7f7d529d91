-- ===== src/Judgment/Digest.antt =====
-- What the digest of a recommendation pins.
use tally_agentic_memory.Prelude.{
  ◌≡◌, sym, ◌∙◌, refl, if◌then◌else◌, str_eq, Option, some, List, [], ◌∷◌, map, String, ℕ,
}
use tally_agentic_memory.Prelude.Result.{ok}
use tally_agentic_memory.Prelude.Int.{ℤ}
use tally_agentic_memory.Prelude.Json.{Json, str, items}
use tally_agentic_memory.Prelude.Python.{Python, concat}
use tally_agentic_memory.Judgment.Balance.{resolve_inverse}
use mathlib.Core.Path.{ap₂}
use tally_agentic_memory.Judgment.{
  DayInput, DayJudgment, DayOutcome, Recommendation, RecommendationType, ReasonCode, supported,
  rate_discrepancy, insufficient_evidence, excluded_not_chargeable, dispute, approve_for_payment,
  request_evidence, missing_day_source, missing_day_access_evidence, rule_not_verified,
  source_version_unavailable, source_integrity_failed, digest_day, digest_payload, outcome_value,
  type_value, reason_value, recommend, resolve_recommendation,
}
use text.Mathlib.TextLemmas.{append_cancel_left, append_cancel_right}

-- The values of an enumeration, read back.
read_type : String → Option RecommendationType
read_type s =
    if str_eq s "DISPUTE"
    then some dispute
    else if str_eq s "APPROVE_FOR_PAYMENT"
    then some approve_for_payment
    else some request_evidence

read-type : (a : RecommendationType) → read_type (type_value a) ≡ some a
unfolding read_type type_value
read-type dispute = refl
read-type approve_for_payment = refl
read-type request_evidence = refl

read_outcome : String → Option DayOutcome
read_outcome s =
    if str_eq s "SUPPORTED"
    then some supported
    else if str_eq s "RATE_DISCREPANCY"
    then some rate_discrepancy
    else if str_eq s "INSUFFICIENT_EVIDENCE"
    then some insufficient_evidence
    else some excluded_not_chargeable

read-outcome : (a : DayOutcome) → read_outcome (outcome_value a) ≡ some a
unfolding read_outcome outcome_value
read-outcome supported = refl
read-outcome rate_discrepancy = refl
read-outcome insufficient_evidence = refl
read-outcome excluded_not_chargeable = refl

read_reason : String → Option ReasonCode
read_reason s =
    if str_eq s "MISSING_DAY_SOURCE"
    then some missing_day_source
    else if str_eq s "MISSING_DAY_ACCESS_EVIDENCE"
    then some missing_day_access_evidence
    else if str_eq s "RULE_NOT_VERIFIED"
    then some rule_not_verified
    else if str_eq s "SOURCE_VERSION_UNAVAILABLE"
    then some source_version_unavailable
    else some source_integrity_failed

read-reason : (a : ReasonCode) → read_reason (reason_value a) ≡ some a
unfolding read_reason reason_value
read-reason missing_day_source = refl
read-reason missing_day_access_evidence = refl
read-reason rule_not_verified = refl
read-reason source_version_unavailable = refl
read-reason source_integrity_failed = refl

reason_value-injective :
    (a b : ReasonCode) → Json.str (reason_value a) ≡ Json.str (reason_value b) → a ≡ b
reason_value-injective a b h = cc (read-reason a, read-reason b)

-- Equal arrays come from lists that agree wherever the elements' JSON values do.
items-map {ℓ κ} :
    {A : Type ℓ} {B : Type κ} (f : A → Json) (g : A → B)
    → ((x y : A) → f x ≡ f y → g x ≡ g y)
    → (xs ys : List A) → items f xs ≡ items f ys
    → map g xs ≡ map g ys
items-map f g inj [] [] h = refl
items-map f g inj [] (y ∷ ys) h = cc
items-map f g inj (x ∷ xs) [] h = cc
items-map f g inj (x ∷ xs) (y ∷ ys) h =
    let head : f x ≡ f y = cc in
    let tail : items f xs ≡ items f ys = cc in
    ap₂ (λ b bs. b ∷ bs) (inj x y head) (items-map f g inj xs ys tail)

-- What the digest says of one day.
abbrev pub day_key : DayJudgment → ℕ × DayOutcome × ℤ
day_key j = (j.charge_date, j.outcome, j.discrepancy_minor)

-- What the digest of a recommendation pins: the type, the sums, the currency, the reasons, and the
-- date, the outcome and the discrepancy of each day.
pub record SameDecision (r s : Recommendation) : Type 0 where
  pub types : r.recommendation_type ≡ s.recommendation_type
  pub disputed : r.disputed_amount_minor ≡ s.disputed_amount_minor
  pub supported_sum : r.supported_amount_minor ≡ s.supported_amount_minor
  pub claimed : r.claimed_amount_minor ≡ s.claimed_amount_minor
  pub currencies : r.currency ≡ s.currency
  pub reasons : map (λ (c : ReasonCode). c) r.reason_codes ≡ map (λ c. c) s.reason_codes
  pub days : map day_key r.judgments ≡ map day_key s.judgments

module _ (py : Python) where
  unfoldable pub payload_of : Recommendation → Json
  payload_of r =
      digest_payload py r.recommendation_type r.disputed_amount_minor r.supported_amount_minor
        r.claimed_amount_minor r.currency r.judgments r.reason_codes

  digest-payload :
      (days : List DayInput) {r : Recommendation}
      → resolve_recommendation py days ≡ ok r
      → r.digest ≡ concat ("sha256:" ∷ py.sha256_json (payload_of r) ∷ [])
  unfolding recommend payload_of
  digest-payload days h = let (currency, e) = resolve_inverse py days h in rw e

module _ (py : Python)
    (isoformat-injective : (m n : ℕ) → py.isoformat m ≡ py.isoformat n → m ≡ n) where
  day_key-injective :
      (j k : DayJudgment) → digest_day py j ≡ digest_day py k → day_key j ≡ day_key k
  unfolding digest_day
  day_key-injective j k h =
      let dates : j.charge_date ≡ k.charge_date =
        isoformat-injective j.charge_date k.charge_date (cc) in
      cc (dates, read-outcome j.outcome, read-outcome k.outcome)

  same_payload : (r s : Recommendation) → payload_of py r ≡ payload_of py s → SameDecision r s
  unfolding payload_of digest_payload
  same_payload r s h = record {
    types = cc (read-type r.recommendation_type, read-type s.recommendation_type);
    disputed = cc;
    supported_sum = cc;
    claimed = cc;
    currencies = cc;
    reasons =
        items-map (λ c. str (reason_value c)) (λ c. c) reason_value-injective r.reason_codes
          s.reason_codes (cc);
    days = items-map (digest_day py) day_key day_key-injective r.judgments s.judgments (cc);
  }

  -- Where distinct dates are written apart and the two hashed payloads do not collide, two
  -- recommendations with one digest have the same type, sums, currency and reasons, and agree on the date, the
  -- outcome and the discrepancy of every day.
  pub digest_pins :
      (days days' : List DayInput) {r s : Recommendation}
      → resolve_recommendation py days ≡ ok r
      → resolve_recommendation py days' ≡ ok s
      → (py.sha256_json (payload_of py r) ≡ py.sha256_json (payload_of py s)
          → payload_of py r ≡ payload_of py s)
      → r.digest ≡ s.digest
      → SameDecision r s
  digest_pins days days' {r} {s} h k collision_free e =
      let same = sym (digest-payload py days h) ∙ e ∙ digest-payload py days' k in
      let hashes = append_cancel_left "sha256:" _ _ same in
      same_payload r s (collision_free (append_cancel_right _ _ "" hashes))
