-- ===== src/Seal/Inputs.antt =====
-- src/platform/authority_seal_repository.py: what a seal binds, gathered from the tables.
use tally_agentic_memory.Prelude.{
  ℕ, ◌+◌, ltb, leb, String, Bool, ◌&&◌, Option, none, some, List, [], ◌∷◌, map, filter, find,
  str_eq, if◌then◌else◌,
}
use tally_agentic_memory.Prelude.Json.{Json, Items, field, end, optional, cons, nil}
use tally_agentic_memory.Prelude.Sort.{sort}
use tally_agentic_memory.Prelude.Python.{Python, concat, prefixed_digest}
use tally_agentic_memory.Tables.{Db, Source}
use tally_agentic_memory.Tables.Decisions.{RecommendationRow, DayRow, DecisionSeal}
use tally_agentic_memory.Store.{invoice_of, object_ref}
use tally_agentic_memory.Seal.Manifest.{SealInputs, nat}

unfoldable pub claim_set_version_of : Db → String → ℕ
claim_set_version_of db invoice_id = elim (invoice_of db invoice_id) [
  | none ↦ 1
  | some i ↦ elim i.active_claim_set_version [ none ↦ 1 | some v ↦ v ]
]

unfoldable pub source_ref_of : Db → String → String
source_ref_of db invoice_id =
    elim (find
      (λ (s : Source). str_eq s.invoice_id invoice_id && str_eq s.source_type "INVOICE_PDF")
      db.sources) [
        | none ↦ concat ("unbound-source:" ∷ invoice_id ∷ [])
        | some s ↦ concat (s.stored.object_key_private ∷ "@" ∷ s.stored.version_id_private ∷ [])
      ]

unfoldable pub reconstruction_version : Db → String → ℕ
reconstruction_version db reconstruction_id =
    elim (find (λ r. str_eq r.id reconstruction_id) db.reconstructions) [
      | none ↦ 1
      | some r ↦ r.version
    ]

-- `SELECT COALESCE(max(revision), 0)`
abbrev pub max_revision : String → List DecisionSeal → ℕ
max_revision invoice_id [] = 0
max_revision invoice_id (s ∷ seals) =
    let rest = max_revision invoice_id seals in
    if str_eq s.invoice_id invoice_id && ltb rest s.revision then s.revision else rest

unfoldable pub next_revision : Db → String → ℕ
next_revision db invoice_id = max_revision invoice_id db.decision_seals + 1

module _ (python : Python) where
  unfoldable pub rule_digest : Db → String → Option String
  rule_digest db rule_id = elim (find (λ r. str_eq r.id rule_id) db.applicable_rules) [
    | none ↦ none
    | some r ↦ some (
        prefixed_digest python (
          Json.obj (
            field "ref" (Json.str r.public_ref) (
              field "rate" (Json.int r.rate_minor) (
                field "cur" (Json.str r.currency) (
                  field "from" (Json.str (python.isoformat r.effective_from)) (
                    field "to" (optional (λ d. Json.str (python.isoformat d)) r.effective_to)
                      end)))))))
  ]

  unfoldable pub day_digest : DayRow → String
  day_digest d = prefixed_digest python (
      Json.obj (
        field "d" (Json.str (python.isoformat d.charge_date)) (
          field "inv" (Json.int d.invoice_rate_minor) (
            field "app" (optional Json.int d.applicable_rate_minor)
              (field "disc" (Json.int d.discrepancy_minor) (field "o" (Json.str d.outcome) end))))))

  -- `ORDER BY charge_date`
  abbrev pub day_le : DayRow → DayRow → Bool
  day_le a b = leb a.charge_date b.charge_date

  unfoldable pub day_judgment_digests : Db → String → List String
  unfolding day_digest
  day_judgment_digests db recommendation_id = map day_digest (
      sort day_le
        (filter (λ d. str_eq d.recommendation_id recommendation_id) db.charged_day_judgments))

  -- The inputs of `approve_and_seal`.
  unfoldable pub seal_inputs : Db → RecommendationRow → String → String → SealInputs
  unfolding claim_set_version_of source_ref_of reconstruction_version rule_digest
      day_judgment_digests
  seal_inputs db rec approver_display approver_kind = record {
    invoice_id = rec.invoice_id;
    reconstruction_id = rec.reconstruction_id;
    reconstruction_version = reconstruction_version db rec.reconstruction_id;
    recommendation_id = rec.id;
    recommendation_version = rec.version;
    recommendation_type = rec.recommendation_type;
    recommendation_digest = rec.digest;
    disputed_amount_minor = rec.disputed_amount_minor;
    supported_amount_minor = rec.supported_amount_minor;
    claimed_amount_minor = rec.claimed_amount_minor;
    currency = rec.currency;
    applicable_rule_id = rec.applicable_rule_id;
    applicable_rule_digest = elim rec.applicable_rule_id [
      | none ↦ none
      | some rule_id ↦ rule_digest db rule_id
    ];
    claim_set_version = claim_set_version_of db rec.invoice_id;
    invoice_source_ref = source_ref_of db rec.invoice_id;
    day_judgment_digests = day_judgment_digests db rec.id;
    approver_display = approver_display;
    approver_kind = approver_kind;
  }

unfoldable pub bound_refs : SealInputs → Json
bound_refs inputs = Json.arr (
    cons (object_ref "recommendation" inputs.recommendation_id inputs.recommendation_version) (
      cons (object_ref "reconstruction" inputs.reconstruction_id inputs.reconstruction_version) (
        cons
          (Json.obj (
            field "type" (Json.str "claim_set")
              (field "version" (nat inputs.claim_set_version) end)))
          (elim inputs.applicable_rule_id as (λ _. Items) [
            | none ↦ nil
            | some id ↦ cons (object_ref "applicable_rule" id 1) nil
          ]))))
