-- ===== src/Correspondence/FactPack.antt =====
-- src/core/correspondence.py: the fact pack of a seal and its locked fields; and the reading of the
-- pack in src/platform/correspondence_repository.py.
use tally_agentic_memory.Prelude.{
  ℕ, ltb, String, Bool, true, false, not, ◌&&◌, Option, none, some, List, [], ◌∷◌, filter, find,
  any, map, str_eq, if◌then◌else◌,
}
use tally_agentic_memory.Prelude.Int.{ℤ, pos, eqb_ℤ}
use tally_agentic_memory.Prelude.Json.{Json, Fields, field, end}
use tally_agentic_memory.Prelude.Python.{Python, concat, prefixed_digest}
use tally_agentic_memory.Prelude.Result.{Result, ok, err}
use tally_agentic_memory.Tables.{Db, Invoice, ClaimSet, ValidatedClaim}
use tally_agentic_memory.Tables.Decisions.{RecommendationRow, DayRow, RuleRow, DecisionSeal}
use tally_agentic_memory.Store.{invoice_of}

pub record SealedFactPack : Type 0 where
  pub invoice_id : String
  pub decision_seal_id : String
  pub seal_digest : String
  pub recommendation_type : String
  pub disputed_amount_minor : ℤ
  pub supported_amount_minor : ℤ
  pub currency : String
  pub charged_period_start : String
  pub charged_period_end : String
  pub container_ref : String
  pub invoice_no : String
  pub rule_ref : String

unfoldable pub locked_fields : SealedFactPack → Fields
locked_fields pack = field "recommendation_type" (Json.str pack.recommendation_type) (
    field "disputed_amount_minor" (Json.int pack.disputed_amount_minor) (
      field "supported_amount_minor" (Json.int pack.supported_amount_minor) (
        field "currency" (Json.str pack.currency) (
          field "charged_period_start" (Json.str pack.charged_period_start) (
            field "charged_period_end" (Json.str pack.charged_period_end) (
              field "container_ref" (Json.str pack.container_ref) (
                field "invoice_no" (Json.str pack.invoice_no)
                  (field "rule_ref" (Json.str pack.rule_ref) end))))))))

unfoldable pub locked_fields_digest : Python → SealedFactPack → String
unfolding locked_fields
locked_fields_digest python pack = prefixed_digest python (Json.obj (locked_fields pack))

pub record DraftValidation : Type 0 where
  pub ok : Bool
  pub issues : List String

-- `d.get(key)`
abbrev pub value_of : Fields → String → Option Json
value_of end key = none
value_of (field name value fields) key = if str_eq name key then some value else value_of fields key

-- `expected != draft.get(key)`, for the texts and integers that are expected. In Python `True` is 1
-- and `False` is 0.
abbrev pub field_differs : Json → Option Json → Bool
field_differs (Json.str s) (some (Json.str t)) = not (str_eq s t)
field_differs (Json.int m) (some (Json.int n)) = not (eqb_ℤ m n)
field_differs (Json.int m) (some (Json.bool b)) = not (eqb_ℤ m (pos (if b then 1 else 0)))
field_differs _ _ = true

-- `sorted(expected)`
abbrev pub locked_names : List String
locked_names =
    "charged_period_end" ∷ "charged_period_start" ∷ "container_ref" ∷ "currency"
    ∷ "disputed_amount_minor" ∷ "invoice_no" ∷ "recommendation_type" ∷ "rule_ref"
    ∷ "supported_amount_minor" ∷ []

abbrev pub drifted : Fields → Fields → String → Bool
drifted expected draft name = elim (value_of expected name) [
  | none ↦ false
  | some value ↦ field_differs value (value_of draft name)
]

abbrev pub or_mismatch : List String → List String
or_mismatch [] = "LOCKED_FIELD_SET_MISMATCH" ∷ []
or_mismatch (i ∷ issues) = i ∷ issues

-- The comparison is one of canonical texts.
unfoldable pub validate_draft_locked_fields : Python → SealedFactPack → Fields → DraftValidation
unfolding locked_fields
validate_draft_locked_fields python pack draft =
    let expected = locked_fields pack in
    if str_eq (python.canonical_json (Json.obj expected)) (python.canonical_json (Json.obj draft))
    then record { ok = true; issues = [] }
    else record {
      ok = false;
      issues = or_mismatch (
          map (λ name. concat ("LOCKED_FIELD_DRIFT:" ∷ name ∷ []))
            (filter (drifted expected draft) locked_names));
    }

unfoldable pub build_subject : SealedFactPack → String
build_subject pack =
    concat ("Adjustment request · " ∷ pack.invoice_no ∷ " · " ∷ pack.container_ref ∷ [])

unfoldable pub seal_of : Db → String → Option DecisionSeal
seal_of db id = find (λ (s : DecisionSeal). str_eq s.id id) db.decision_seals

-- `min(charge_date)` and `max(charge_date)`
abbrev pub period_of : List DayRow → Option (ℕ × ℕ)
period_of [] = none
period_of (d ∷ days) = elim (period_of days) [
  | none ↦ some (d.charge_date, d.charge_date)
  | some (first, last) ↦ some (
    if ltb d.charge_date first then d.charge_date else first,
    if ltb last d.charge_date then d.charge_date else last,
  )
]

unfoldable pub charge_period : Python → Db → DecisionSeal → String × String
charge_period python db s =
    elim (period_of
      (filter (λ d. str_eq d.recommendation_id s.recommendation_id) db.charged_day_judgments)) [
        | none ↦ ("", "")
        | some (first, last) ↦ (python.isoformat first, python.isoformat last)
      ]

-- The first claim of the container's number: the `LIMIT 1` has no order.
unfoldable pub container_of : Db → String → Option Json
container_of db invoice_id =
    elim (find
      (λ (row : String × ValidatedClaim).
        str_eq row.1.field_name "container_number"
        && any (λ (c : ClaimSet). str_eq c.id row.0 && str_eq c.invoice_id invoice_id)
            db.claim_sets)
      db.extracted_claims) [ none ↦ none | some (_, c) ↦ some c.normalized_value ]

-- `_norm`: `json.loads` of a value that is not a text raises.
unfoldable pub container_ref_of : Option Json → Result {0} String String
container_ref_of none = ok "UNKNOWN"
container_ref_of (some (Json.str s)) = ok s
container_ref_of (some _) = err "TypeError"

-- `value or default`
abbrev pub text_or : String → Option String → String
text_or default none = default
text_or default (some s) = if str_eq s "" then default else s

unfoldable pub rule_ref_of : Db → Option String → String
rule_ref_of db none = "UNKNOWN"
rule_ref_of db (some rule_id) =
    elim (find (λ (r : RuleRow). str_eq r.id rule_id) db.applicable_rules) [
      | none ↦ "UNKNOWN"
      | some r ↦ text_or "UNKNOWN" r.clause_ref
    ]

abbrev pub pack_of :
    Python → Db → DecisionSeal → RecommendationRow → Invoice → String → SealedFactPack
pack_of python db s r i container = record {
  invoice_id = s.invoice_id;
  decision_seal_id = s.id;
  seal_digest = s.seal_digest;
  recommendation_type = r.recommendation_type;
  disputed_amount_minor = r.disputed_amount_minor;
  supported_amount_minor = r.supported_amount_minor;
  currency = r.currency;
  charged_period_start = (charge_period python db s).0;
  charged_period_end = (charge_period python db s).1;
  container_ref = container;
  invoice_no = text_or "INV" i.invoice_no;
  rule_ref = rule_ref_of db s.applicable_rule_id;
}

unfoldable pub load_sealed_fact_pack : Python → Db → String → Result {0} String SealedFactPack
unfolding seal_of charge_period container_of container_ref_of rule_ref_of
load_sealed_fact_pack python db decision_seal_id = elim (seal_of db decision_seal_id) [
  | none ↦ err "SEAL_NOT_FOUND"
  | some s ↦
      elim (find (λ (r : RecommendationRow). str_eq r.id s.recommendation_id) db.recommendations) [
        | none ↦ err "SEAL_NOT_FOUND"
        | some r ↦ elim (invoice_of db s.invoice_id) [
          | none ↦ err "SEAL_NOT_FOUND"
          | some i ↦ elim (container_ref_of (container_of db s.invoice_id)) [
            | err e ↦ err e
            | ok container ↦ ok (pack_of python db s r i container)
          ]
        ]
      ]
]
