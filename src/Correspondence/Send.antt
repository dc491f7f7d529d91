-- ===== src/Correspondence/Send.antt =====
-- src/platform/correspondence_repository.py: approve_and_send. The provider is not undone where the
-- transaction fails, so every outcome has the provider that it leaves.
pub mod Emission
use tally_agentic_memory.Prelude.{
  ℕ, String, Bool, true, false, not, Option, none, some, List, [], ◌∷◌, ◌++◌, map, find, str_eq,
  if◌then◌else◌,
}
use tally_agentic_memory.Prelude.Json.{Json, field, end}
use tally_agentic_memory.Prelude.Python.{Python, prefixed_digest}
use tally_agentic_memory.Prelude.Result.{Result, ok, err}
use tally_agentic_memory.Intake.{ready_for_reconstruction, TaskState}
use tally_agentic_memory.Tables.{Event, Db}
use tally_agentic_memory.Tables.Letters.{Draft, SendAttempt, GateRun}
use tally_agentic_memory.Store.{
  update_where, invoice_of, lock_invoice_and_advance, insert_event, object_ref, one_ref, no_refs,
}
use tally_agentic_memory.Correspondence.Gates.{
  GateState, GateResult, SendDecision, evaluate_send_gates, failed, not_run,
}
use tally_agentic_memory.Correspondence.Provider.{
  Provider, ControlledSendReceipt, send, recipient_class_controlled,
}
use tally_agentic_memory.Correspondence.Send.Emission.{
  SendResult, SendCall, SendIds, draft_of, attempt_of, gate_state_value, gate_of, summary_of_event,
  SendEvent, blocked_event, failed_event, sent_event, send_status, send_event, emit_send_event,
}

module _ (python : Python) (call : SendCall) (ids : SendIds) where
  unfoldable pub send_request_hash : Draft → String
  send_request_hash d = prefixed_digest python (
      Json.obj
        (field "draft" (Json.str call.draft_id) (field "seal_digest" (Json.str d.seal_digest) end)))

  unfoldable pub provider_key : Draft → String
  provider_key d = python.sha256_hex (
      python.canonical_json (
        Json.obj
          (field "attempt" (Json.str ids.attempt) (field "seal" (Json.str d.seal_digest) end))))

  -- `results`: the checks that were passed in replace those that are computed here.
  unfoldable pub gate_results : Draft → List (String × GateResult)
  gate_results d =
      call.gate_checks
      ++ gate_of "SECOND_AUTHORIZATION" (not (str_eq call.second_approver_display ""))
        ∷ gate_of "LOCKED_FIELDS" (str_eq d.validation_state "VALIDATED")
        ∷ []

  abbrev pub gate_run : GateResult → GateRun
  gate_run r = record {
    send_attempt_id = ids.attempt;
    gate_code = r.gate_code;
    gate_state = gate_state_value r.state;
    detail = r.detail;
  }

  unfoldable pub attempt_row : Draft → SendDecision → SendAttempt
  unfolding send_request_hash provider_key
  attempt_row d decision = record {
    id = ids.attempt;
    invoice_id = d.invoice_id;
    draft_id = call.draft_id;
    decision_seal_id = d.decision_seal_id;
    idempotency_key = call.idempotency_key;
    request_hash = send_request_hash d;
    second_approver_display = call.second_approver_display;
    gate_state = if decision.permitted then "PASSED" else "BLOCKED";
    send_state = if decision.permitted then "PENDING" else "SEND_BLOCKED";
    provider_idempotency_key = provider_key d;
    provider_message_id = none;
    recipient_class = recipient_class_controlled;
    blocked_reason = decision.blocked_reason;
    response_snapshot = none;
    acknowledged_at = none;
  }

  -- The attempt and its gate runs, for the audit.
  unfoldable pub persisted : Draft → SendDecision → Db → Db
  unfolding attempt_row
  persisted d decision db = record db {
    send_attempts = attempt_row d decision ∷ db.send_attempts;
    send_gate_runs = map gate_run decision.gate_results ++ db.send_gate_runs;
  }

  abbrev pub update_attempt : (SendAttempt → SendAttempt) → Db → Db
  update_attempt f db = record db {
    send_attempts = update_where (λ a. str_eq a.id ids.attempt) f db.send_attempts;
  }

  abbrev pub failed_attempt : String → SendAttempt → SendAttempt
  failed_attempt reason a = record a {
    send_state = "SEND_FAILED_RETRYABLE";
    blocked_reason = some reason;
  }

  abbrev pub sent_attempt : ControlledSendReceipt → SendAttempt → SendAttempt
  sent_attempt receipt a = record a {
    send_state = "SENT";
    provider_message_id = some receipt.provider_message_id;
    acknowledged_at = some ids.now;
    response_snapshot = some (
        Json.obj (
          field "recipient_class" (Json.str receipt.recipient_class)
            (field "disclaimer" (Json.str receipt.disclaimer) end)));
  }

  abbrev pub SendOutcome : Type 0
  SendOutcome = Result {0} String (SendResult × Db) × Provider

  -- The answer once the event was written.
  abbrev pub with_event : SendResult → Option Db → Provider → SendOutcome
  with_event r none p = (err "INVOICE_NOT_FOUND", p)
  with_event r (some db) p = (ok (r, db), p)

  abbrev pub replayed_attempt : SendAttempt → SendResult
  replayed_attempt a = record {
    send_attempt_id = a.id;
    send_state = a.send_state;
    gate_state = a.gate_state;
    provider_message_id = a.provider_message_id;
    blocked_reason = a.blocked_reason;
    duplicate = true;
  }

  abbrev pub send_result_of : String → String → Option String → Option String → Bool → SendResult
  send_result_of send_state gate_state message_id reason duplicate = record {
    send_attempt_id = ids.attempt;
    send_state = send_state;
    gate_state = gate_state;
    provider_message_id = message_id;
    blocked_reason = reason;
    duplicate = duplicate;
  }

  unfoldable pub send_blocked : Draft → Option String → Db → Provider → SendOutcome
  unfolding emit_send_event
  send_blocked d reason db p =
      with_event (send_result_of "SEND_BLOCKED" "BLOCKED" none reason false)
        (emit_send_event python call ids d.invoice_id (blocked_event reason) db) p

  -- The provider did not acknowledge.
  unfoldable pub send_failed : Draft → String → Db → Provider → SendOutcome
  unfolding emit_send_event
  send_failed d reason db p =
      with_event (send_result_of "SEND_FAILED_RETRYABLE" "PASSED" none (some reason) false)
        (emit_send_event python call ids d.invoice_id (failed_event reason)
          (update_attempt (failed_attempt reason) db))
        p

  unfoldable pub send_sent : Draft → ControlledSendReceipt → Db → Provider → SendOutcome
  unfolding emit_send_event
  send_sent d receipt db p =
      with_event
        (send_result_of "SENT" "PASSED" (some receipt.provider_message_id) none receipt.duplicate)
        (emit_send_event python call ids d.invoice_id (sent_event receipt)
          (update_attempt (sent_attempt receipt) db))
        p

  -- All gates passed: the provider is called.
  unfoldable pub send_permitted : Draft → Db → Provider → SendOutcome
  unfolding provider_key
  send_permitted d db p = elim (send python (provider_key d) recipient_class_controlled p) [
    | err reason ↦ send_failed d reason db p
    | ok (receipt, p') ↦ send_sent d receipt db p'
  ]

  unfoldable pub approve_and_send : Db → Provider → SendOutcome
  unfolding draft_of attempt_of send_request_hash gate_results persisted send_blocked send_permitted
  approve_and_send db p = elim (draft_of db call.draft_id) [
    | none ↦ (err "DRAFT_NOT_FOUND", p)
    | some d ↦ elim (attempt_of db call.idempotency_key) [
      | some a ↦
          if str_eq a.request_hash (send_request_hash d)
          then (ok (replayed_attempt a, db), p)
          else (err "IDEMPOTENCY_CONFLICT", p)
      | none ↦
          let decision = evaluate_send_gates (gate_results d) in
          let written = persisted d decision db in
          if decision.permitted
          then send_permitted d written p
          else send_blocked d decision.blocked_reason written p
    ]
  ]
