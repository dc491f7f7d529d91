-- ===== src/Tables/Letters.antt =====
-- The rows of the drafts and the attempts to send them.
use tally_agentic_memory.Prelude.{ℕ, String, Option, List}
use tally_agentic_memory.Prelude.Json.{Json}

-- A row of `correspondence_drafts`.
pub record Draft : Type 0 where
  pub id : String
  pub invoice_id : String
  pub decision_seal_id : String
  pub seal_digest : String
  pub recipient_class : String
  pub subject : String
  pub body_prose : String
  pub locked_fields : Json
  pub locked_fields_digest : String
  pub validation_state : String
  pub state : String
  pub generator_kind : String
  pub generator_model_id : Option String
  pub prose_validation_state : String
  pub prose_validation_issues : List String

-- A row of `send_attempts`.
pub record SendAttempt : Type 0 where
  pub id : String
  pub invoice_id : String
  pub draft_id : String
  pub decision_seal_id : String
  pub idempotency_key : String
  pub request_hash : String
  pub second_approver_display : String
  pub gate_state : String
  pub send_state : String
  pub provider_idempotency_key : String
  pub provider_message_id : Option String
  pub recipient_class : String
  pub blocked_reason : Option String
  pub response_snapshot : Option Json
  pub acknowledged_at : Option ℕ

-- A row of `send_gate_runs`.
pub record GateRun : Type 0 where
  pub send_attempt_id : String
  pub gate_code : String
  pub gate_state : String
  pub detail : Option String
