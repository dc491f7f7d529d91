-- ===== src/Correspondence/Trials.antt =====
-- The theorems on drafts and sends at a concrete draft.
use tally_agentic_memory.Prelude.{
  ℕ, zero, suc, ◌≡◌, ◌≢◌, refl, sym, ap, ◌∙◌, String, Bool, true, false, none, some, [], ◌∷◌, find,
  arith, str_eq, eq_iff,
}
use tally_agentic_memory.Prelude.Int.{pos}
use tally_agentic_memory.Prelude.Json.{Json, field}
use tally_agentic_memory.Prelude.Python.{Python}
use tally_agentic_memory.Prelude.Result.{Result, ok, err}
use tally_agentic_memory.Samples.{plain}
use tally_agentic_memory.Database.{
  Outcome, committed, restarts, run_with_retry, EndsAt, run_with_retry-EndsAt,
}
use tally_agentic_memory.Intake.{IntakeState}
use tally_agentic_memory.Tables.{Invoice, Source, Db}
use tally_agentic_memory.Tables.Decisions.{ReconstructionRow, RuleRow}
use tally_agentic_memory.Tables.Letters.{Draft}
use tally_agentic_memory.Store.{invoice_of, lock_invoice_and_advance}
use tally_agentic_memory.Ingestion.Requests.{is_pdf_of}
use tally_agentic_memory.Correspondence.Gates.{evaluate_send_gates, gates_from, result_for}
use tally_agentic_memory.Correspondence.FactPack.{SealedFactPack, validate_draft_locked_fields}
use tally_agentic_memory.Correspondence.Fresh.{
  latest_of, mcp_gate, vector_gate, source_gate, build_fresh_gate_checks,
}
use tally_agentic_memory.Correspondence.Provider.{Provider, send}
use tally_agentic_memory.Correspondence.Draft.{Prose, draft_of_seal, overall, draft_row, draft}
use tally_agentic_memory.Correspondence.Send.Emission.{
  SendResult, SendCall, SendIds, draft_of, attempt_of, send_status, emit_send_event,
}
use tally_agentic_memory.Correspondence.Send.{
  provider_key, gate_results, persisted, send_sent, send_permitted, approve_and_send,
}
use tally_agentic_memory.Correspondence.Delivery.{delivery_gated}
use tally_agentic_memory.Correspondence.Retried.{send_with_retry, message_at, delivers_twice}
use tally_agentic_memory.Correspondence.Replay.{send_replays, invalid_reported_valid}

-- The text of the first field: attempts with different ids have different ones.
abbrev first_text : Json → String
first_text (Json.obj (field name (Json.str s) fields)) = s
first_text _ = ""

abbrev python : Python
python = record plain { canonical_json = first_text; sha256_hex = λ s. s }

abbrev invoice : Invoice
invoice = record {
  id = "I1";
  carrier_id = "C1";
  invoice_no = some "INV-1";
  s3_key = "k";
  sha256 = "h";
  source_version_id = "v";
  display_name = "invoice.pdf";
  received_at = 1;
  intake_state = IntakeState.ready_for_reconstruction;
  aggregate_status = "DISPUTED";
  status = "DISPUTED";
  status_sequence = 4;
  row_version = 4;
  active_claim_set_version = some 1;
  updated_at = 1;
}

abbrev source : Source
source = record {
  id = "S1";
  invoice_id = "I1";
  source_type = "INVOICE_PDF";
  display_filename = "invoice.pdf";
  mime_type = "application/pdf";
  preservation_status = "VERSION_VERIFIED";
  provenance_classification = "SYNTHETIC_DEMO";
  public_disclosure = "";
  received_at = 1;
  stored = record {
    bucket_ref_private = "b";
    object_key_private = "k";
    version_id_private = "v";
    sha256 = "h";
    byte_length = 9;
  };
}

abbrev reconstruction : ReconstructionRow
reconstruction = record { id = "K1"; invoice_id = "I1"; version = 1; state = "COMPLETE" }

abbrev rule : RuleRow
rule = record {
  id = "U1";
  invoice_id = "I1";
  public_ref = "P1";
  clause_ref = some "4.2";
  rate_minor = pos 100;
  currency = "USD";
  effective_from = 1;
  effective_to = none;
  validation_state = "VERIFIED";
}

abbrev letter : Draft
letter = record {
  id = "D1";
  invoice_id = "I1";
  decision_seal_id = "S9";
  seal_digest = "sha256:seal";
  recipient_class = "CONTROLLED_DEMONSTRATION_INBOX";
  subject = "Adjustment request";
  body_prose = "";
  locked_fields = Json.null;
  locked_fields_digest = "";
  validation_state = "VALIDATED";
  state = "DRAFT_READY";
  generator_kind = "CALLER_SUPPLIED";
  generator_model_id = none;
  prose_validation_state = "VALIDATED";
  prose_validation_issues = [];
}

abbrev tables : Db
tables = record {
  tasks = [];
  attempts = [];
  invoices = invoice ∷ [];
  sources = source ∷ [];
  events = [];
  outbox = [];
  extraction_runs = [];
  claim_sets = [];
  extracted_claims = [];
  retry_requests = [];
  recommendations = [];
  charged_day_judgments = [];
  reconstructions = reconstruction ∷ [];
  applicable_rules = rule ∷ [];
  approvals = [];
  decision_seals = [];
  query_log = [];
  correspondence_drafts = letter ∷ [];
  send_attempts = [];
  send_gate_runs = [];
  ingestion_requests = [];
}

abbrev send_call : SendCall
send_call = record {
  draft_id = "D1";
  idempotency_key = "send";
  second_approver_display = "Bea";
  gate_checks = build_fresh_gate_checks tables "I1";
}

abbrev ids_at : ℕ → SendIds
ids_at zero = record { attempt = "A0"; event = "E0"; now = 5 }
ids_at (suc n) = record { attempt = "A1"; event = "E1"; now = 6 }

abbrev provider : Provider
provider = record { delivered = []; fails = false }

abbrev after : Result {0} String (SendResult × Db) → Db
after (ok (r, db)) = db
after (err e) = tables

abbrev sent : Db
sent = after (approve_and_send python send_call (ids_at 0) tables provider).0

abbrev send_result : SendResult
send_result = record {
  send_attempt_id = "A0";
  send_state = "SENT";
  gate_state = "PASSED";
  provider_message_id = some "demo-A0";
  blocked_reason = none;
  duplicate = false;
}

abbrev with_one : Provider
with_one = record { delivered = ("A0", "demo-A0") ∷ []; fails = false }

sent_1 :
    approve_and_send python send_call (ids_at 0) tables provider
    ≡ (ok (send_result, sent), with_one)
unfolding approve_and_send draft_of attempt_of gate_results evaluate_send_gates gates_from
    result_for build_fresh_gate_checks mcp_gate vector_gate source_gate send_permitted provider_key
    send send_sent emit_send_event send_status persisted lock_invoice_and_advance invoice_of
sent_1 = refl

changed_1 : (approve_and_send python send_call (ids_at 0) tables provider).1 ≢ provider
changed_1 e = absurd (ground (arith, ap (λ q. q.delivered) (sym (ap (λ o. o.1) sent_1) ∙ e)))

delivery_gated_example :
    (attempt_of tables "send" ≡ none)
    × (send_call.second_approver_display ≢ "")
    × ((d : Draft) × (draft_of tables "D1" ≡ some d) × (d.validation_state ≡ "VALIDATED"))
    × ((v : ReconstructionRow) × (latest_of "I1" tables.reconstructions ≡ some v)
        × (v.state ≡ "COMPLETE"))
    × ((v : RuleRow) × (find (λ (x : RuleRow). str_eq x.invoice_id "I1") tables.applicable_rules
          ≡ some v)
        × (v.validation_state ≡ "VERIFIED"))
    × ((v : Source) × (find (is_pdf_of "I1") tables.sources ≡ some v)
        × (v.preservation_status ≡ "VERSION_VERIFIED"))
delivery_gated_example =
    delivery_gated python send_call (ids_at 0) tables "I1" provider refl changed_1

send_replays_example :
    approve_and_send python send_call (ids_at 1) sent provider
    ≡ (ok (record send_result { duplicate = true }, sent), provider)
send_replays_example =
    send_replays python send_call (ids_at 0) (ids_at 1) tables provider send_result sent with_one
      provider sent_1

abbrev refuses_first : ℕ → Bool
refuses_first zero = true
refuses_first (suc n) = false

draft_1 : draft_of tables "D1" ≡ some letter
unfolding draft_of
draft_1 = refl

attempt_1 : attempt_of tables "send" ≡ none
unfolding attempt_of
attempt_1 = refl

permitted_1 :
    (k : ℕ)
    → (evaluate_send_gates (gate_results python send_call (ids_at k) letter)).permitted ≡ true
unfolding gate_results evaluate_send_gates gates_from result_for build_fresh_gate_checks mcp_gate
    vector_gate source_gate
permitted_1 k = refl

keys_1 :
    provider_key python send_call (ids_at 0) letter
    ≢ provider_key python send_call (ids_at 1) letter
unfolding provider_key
keys_1 e = absurd (ground (arith, (eq_iff "A0" "A1").1 e))

delivers_twice_example :
    (send_with_retry python send_call ids_at (λ k. tables) refuses_first 5 provider).1.delivered
    ≡ message_at python send_call ids_at (λ k. tables) refuses_first 1 letter
      ∷ (message_at python send_call ids_at (λ k. tables) refuses_first 0 letter ∷ [])
delivers_twice_example =
    delivers_twice python send_call ids_at (λ k. tables) refuses_first 4 letter provider refl refl
      (draft_1, attempt_1, permitted_1 0) (draft_1, attempt_1, permitted_1 1) refl refl refl keys_1

-- A transaction that is refused once, and counts its runs outside of it.
abbrev counted : ℕ → ℕ → Outcome String × ℕ
counted zero s = (restarts, suc s)
counted (suc n) s = (committed "done", suc s)

run_with_retry-EndsAt_example : (n : ℕ) × EndsAt counted 5 0 0 (run_with_retry counted 5 0) n
run_with_retry-EndsAt_example = run_with_retry-EndsAt counted 5 0

abbrev pack : SealedFactPack
pack = record {
  invoice_id = "I1";
  decision_seal_id = "S8";
  seal_digest = "sha256:other";
  recommendation_type = "DISPUTE";
  disputed_amount_minor = pos 100;
  supported_amount_minor = pos 0;
  currency = "USD";
  charged_period_start = "";
  charged_period_end = "";
  container_ref = "UNKNOWN";
  invoice_no = "INV-1";
  rule_ref = "4.2";
}

abbrev prose : Prose
prose = record {
  body = "We dispute 999.";
  generator_kind = "BEDROCK";
  generator_model_id = none;
  validation = record { ok = false; issues = "UNSUPPORTED_NUMBER:999" ∷ [] };
}

no_draft_1 : draft_of_seal tables "S8" ≡ none
unfolding draft_of_seal
no_draft_1 = refl

invalid_1 : overall python pack prose "D2" ≡ "INVALID"
unfolding overall validate_draft_locked_fields
invalid_1 = refl

invalid_reported_valid_example :
    let (first, later) = draft python pack prose "D2" tables in
    (first.validation_state ≡ "INVALID")
    × ((draft_of_seal later "S8" ≡ some (draft_row python pack prose "D2"))
        × ((draft_row python pack prose "D2").validation_state ≡ "INVALID"))
    × ((draft python pack prose "D3" later).0.validation_state ≡ "VALIDATED")
invalid_reported_valid_example =
    invalid_reported_valid python pack prose "D2" "D3" tables no_draft_1 invalid_1
