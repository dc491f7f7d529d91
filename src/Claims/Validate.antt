-- ===== src/Claims/Validate.antt =====
-- src/core/intake_claims.py: validate_extracted_claims.
use tally_agentic_memory.Prelude.{
  ℕ, ◌+◌, ◌-◌, ◌++◌, ltb, String, Bool, true, false, not, ◌&&◌, ◌||◌, is_some, Option, none, some,
  List, [], ◌∷◌, find, any, str_eq, if◌then◌else◌,
}
use tally_agentic_memory.Prelude.Int.{ℤ, pos, ◌*ℤ◌, eqb_ℤ}
use tally_agentic_memory.Prelude.Json.{Json}
use tally_agentic_memory.Prelude.Python.{Python, concat}
use tally_agentic_memory.Prelude.Result.{Result, ok, err}
use tally_agentic_memory.Prelude.Sort.{sort}
use tally_agentic_memory.Prelude.Text.{codes}
use tally_agentic_memory.Prelude.Time.{codes_le}
use tally_agentic_memory.Tables.{PdfAnchor, ValidatedClaim, ClaimValidation}
use tally_agentic_memory.Claims.Anchor.{Value, null, Floats, Page}
use tally_agentic_memory.Claims.Located.{locate_pdf_anchor}
use tally_agentic_memory.Claims.Values.{
  Readers, Normal, str_of, normalize_claim, overflows, stripped,
}

-- `REQUIRED_CLAIM_FIELDS`
abbrev pub required_claim_fields : List String
required_claim_fields =
    "invoice_number" ∷ "container_number" ∷ "bill_of_lading" ∷ "charge_type" ∷ "period_start"
    ∷ "period_end" ∷ "charged_days" ∷ "daily_rate" ∷ "total" ∷ "issued_date" ∷ []

-- An entry of the model's answer that is a dictionary; the excerpt is there if it is a text.
pub record Entry : Type 0 where
  pub value : Value
  pub text_excerpt : Option String
  pub page_number : Value

abbrev pub is_null : Value → Bool
is_null null = true
is_null _ = false

-- The `excerpt` that is a text and not blank.
abbrev pub excerpt_of : Entry → Option String
excerpt_of e = elim e.text_excerpt [
  | none ↦ none
  | some t ↦ if str_eq (stripped t) "" then none else some t
]

-- `raw_claims.get(field_name)`, of the entries that are dictionaries.
abbrev pub entry_of : List (String × Entry) → String → Option Entry
entry_of [] name = none
entry_of ((key, e) ∷ entries) name = if str_eq key name then some e else entry_of entries name

-- `sorted(set(issues))`
abbrev pub insert_once : String → List String → List String
insert_once s issues = if any (str_eq s) issues then issues else s ∷ issues

abbrev pub distinct : List String → List String
distinct [] = []
distinct (s ∷ issues) = insert_once s (distinct issues)

unfoldable pub sorted_set : List String → List String
sorted_set issues = sort (λ s t. codes_le (codes s) (codes t)) (distinct issues)

-- `by_name.get(name)`: each field has at most one claim.
abbrev pub named : String → List ValidatedClaim → Option ValidatedClaim
named name claims = find (λ (c : ValidatedClaim). str_eq c.field_name name) claims

abbrev pub all_three {ℓ} : {A : Type ℓ} → Option A → Option A → Option A → Option (A × (A × A))
all_three (some a) (some b) (some c) = some (a, (b, c))
all_three _ _ _ = none

abbrev pub int_in : Json → Option ℤ
int_in (Json.int n) = some n
int_in _ = none

abbrev pub or_zero : Option ℤ → ℤ
or_zero none = pos 0
or_zero (some n) = n

abbrev pub is_amount : ℤ → Option ℤ → Bool
is_amount n none = false
is_amount n (some m) = eqb_ℤ n m

module _ (python : Python) (readers : Readers) (upper : List ℕ → List ℕ) {F : Type 0}
    (floats : Floats F) (pages : List (Page F)) where
  abbrev pub issue : String → String → String
  issue prefix field_name = concat (prefix ∷ readers.upper field_name ∷ [])

  abbrev pub claim_of : String → Entry → Normal → PdfAnchor → ValidatedClaim
  claim_of field_name e n anchor = record {
    field_name = field_name;
    value_type = n.value_type;
    raw_value = str_of python readers e.value;
    normalized_value = n.value;
    amount_minor = n.amount_minor;
    currency = n.currency;
    anchor = anchor;
  }

  -- The claim of a field, or its issue.
  unfoldable pub checked_excerpt : String → Entry → String → Result {0} String ValidatedClaim
  checked_excerpt field_name e excerpt =
      elim (locate_pdf_anchor python upper floats pages e.page_number excerpt) [
        | none ↦ err (issue "UNANCHORED_" field_name)
        | some anchor ↦ elim (normalize_claim python readers field_name e.value) [
          | none ↦ err (issue "INVALID_" field_name)
          | some n ↦ ok (claim_of field_name e n anchor)
        ]
      ]

  unfoldable pub checked : List (String × Entry) → String → Result {0} String ValidatedClaim
  unfolding checked_excerpt
  checked entries field_name = elim (entry_of entries field_name) [
    | none ↦ err (issue "MISSING_" field_name)
    | some e ↦ if is_null e.value then err (issue "MISSING_" field_name) else elim (excerpt_of e) [
      | none ↦ err (issue "MISSING_" field_name)
      | some excerpt ↦ checked_excerpt field_name e excerpt
    ]
  ]

  -- An `OverflowError` leaves the loop, at the first field with one.
  unfoldable pub raised : List (String × Entry) → String → Bool
  raised entries field_name = elim (entry_of entries field_name) [
    | none ↦ false
    | some e ↦ if is_null e.value then false else elim (excerpt_of e) [
      | none ↦ false
      | some excerpt ↦
          is_some (locate_pdf_anchor python upper floats pages e.page_number excerpt)
          && overflows python readers field_name e.value
    ]
  ]

  -- The loop over the fields, where none raises: the claims and the issues.
  unfoldable pub checked_fields :
      List (String × Entry) → List String → List ValidatedClaim × List String
  unfolding checked
  checked_fields entries [] = ([], [])
  checked_fields entries (name ∷ names) =
      let (claims, issues) = checked_fields entries names in
      elim (checked entries name) [ ok c ↦ (c ∷ claims, issues) | err i ↦ (claims, i ∷ issues) ]

  -- `date.fromisoformat(claim.normalized_value)`
  abbrev pub date_in : ValidatedClaim → Option ℕ
  date_in c = elim c.normalized_value [ Json.str s ↦ readers.fromisoformat s | _ ↦ none ]

  -- The days from the start to the end are not those that are charged.
  unfoldable pub period_issue : List ValidatedClaim → Result {0} String (List String)
  period_issue claims =
      elim (all_three (named "period_start" claims) (named "period_end" claims)
        (named "charged_days" claims)) [
          | none ↦ ok []
          | some (s, (e, d)) ↦ elim (date_in s) [
            | none ↦ err "ValueError"
            | some first ↦ elim (date_in e) [
              | none ↦ err "ValueError"
              | some last ↦ elim (int_in d.normalized_value) [
                | none ↦ err "ValueError"
                | some days ↦
                    if ltb last first || not (eqb_ℤ (pos (last - first + 1)) days)
                    then ok ("CHARGE_PERIOD_DAY_COUNT_MISMATCH" ∷ [])
                    else ok []
              ]
            ]
          ]
        ]

  unfoldable pub total_issue : List ValidatedClaim → Result {0} String (List String)
  total_issue claims =
      elim (all_three (named "daily_rate" claims) (named "charged_days" claims)
        (named "total" claims)) [
          | none ↦ ok []
          | some (r, (d, t)) ↦ elim (int_in d.normalized_value) [
            | none ↦ err "ValueError"
            | some days ↦
                if is_amount (or_zero r.amount_minor *ℤ days) t.amount_minor
                then ok []
                else ok ("CLAIMED_TOTAL_ARITHMETIC_MISMATCH" ∷ [])
          ]
        ]

  -- `raw.get("claims")`, where it is a dictionary.
  unfoldable pub validate_extracted_claims :
      Option (List (String × Entry)) → Result {0} String ClaimValidation
  unfolding raised checked_fields period_issue total_issue sorted_set
  validate_extracted_claims none =
      ok (record { claims = []; issue_codes = "INVALID_MODEL_SCHEMA" ∷ [] })
  validate_extracted_claims (some entries) =
      let (claims, issues) = checked_fields entries required_claim_fields in
      if any (raised entries) required_claim_fields
      then err "OverflowError"
      else elim (period_issue claims) [
        | err e ↦ err e
        | ok period ↦ elim (total_issue claims) [
          | err e ↦ err e
          | ok total ↦
              ok
                (record { claims = claims; issue_codes = sorted_set (issues ++ (period ++ total)) })
        ]
      ]
