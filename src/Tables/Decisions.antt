-- ===== src/Tables/Decisions.antt =====
-- The rows of the recommendations, their approvals and their seals.
use tally_agentic_memory.Prelude.{ℕ, String, Bool, Option}
use tally_agentic_memory.Prelude.Int.{ℤ}
use tally_agentic_memory.Prelude.Json.{Json}

-- A row of `recommendations`.
pub record RecommendationRow : Type 0 where
  pub id : String
  pub reconstruction_id : String
  pub invoice_id : String
  pub version : ℕ
  pub digest : String
  pub state : String
  pub recommendation_type : String
  pub applicable_rule_id : Option String
  pub disputed_amount_minor : ℤ
  pub supported_amount_minor : ℤ
  pub claimed_amount_minor : ℤ
  pub currency : String

-- A row of `charged_day_judgments`.
pub record DayRow : Type 0 where
  pub recommendation_id : String
  pub charge_date : ℕ
  pub invoice_rate_minor : ℤ
  pub applicable_rate_minor : Option ℤ
  pub discrepancy_minor : ℤ
  pub outcome : String

-- A row of `reconstructions`.
pub record ReconstructionRow : Type 0 where
  pub id : String
  pub invoice_id : String
  pub version : ℕ
  pub state : String

-- A row of `applicable_rules`.
pub record RuleRow : Type 0 where
  pub id : String
  pub invoice_id : String
  pub public_ref : String
  pub clause_ref : Option String
  pub rate_minor : ℤ
  pub currency : String
  pub effective_from : ℕ
  pub effective_to : Option ℕ
  pub validation_state : String

-- The `response_snapshot` of an approval.
pub record SealSnapshot : Type 0 where
  pub seal_id : String
  pub revision : ℕ
  pub seal_digest : String
  pub recommendation_type : String

-- A row of `approvals`.
pub record Approval : Type 0 where
  pub id : String
  pub invoice_id : String
  pub reconstruction_id : String
  pub recommendation_id : String
  pub recommendation_version : ℕ
  pub recommendation_digest : String
  pub idempotency_key : String
  pub request_hash : String
  pub approver_user_id : Option String
  pub approver_display : String
  pub approver_kind : String
  pub decision : String
  pub state : String
  pub response_snapshot : SealSnapshot

-- A row of `decision_seals`.
pub record DecisionSeal : Type 0 where
  pub id : String
  pub invoice_id : String
  pub reconstruction_id : String
  pub recommendation_id : String
  pub recommendation_version : ℕ
  pub applicable_rule_id : Option String
  pub claim_set_version : ℕ
  pub approval_id : String
  pub approver_display : String
  pub revision : ℕ
  pub seal_digest : String
  pub bound_object_refs : Json
  pub invoice_source_ref_private : String
  pub public_summary : String

-- A row of `query_log`.
pub record QueryLog : Type 0 where
  pub kind : String
  pub tag : String
  pub sql_text : String
  pub actor : String
  pub ok : Bool
