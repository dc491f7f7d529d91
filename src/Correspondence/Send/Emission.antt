-- ===== src/Correspondence/Send/Emission.antt =====
-- src/platform/correspondence_repository.py: the call, its rows, and the event of a send.
use tally_agentic_memory.Prelude.{
  ℕ, String, Bool, Option, none, some, List, find, str_eq, if◌then◌else◌,
}
use tally_agentic_memory.Prelude.Json.{Json, field, end}
use tally_agentic_memory.Prelude.Python.{Python}
use tally_agentic_memory.Intake.{ready_for_reconstruction, TaskState}
use tally_agentic_memory.Tables.{Event, Db}
use tally_agentic_memory.Tables.Letters.{Draft, SendAttempt}
use tally_agentic_memory.Store.{
  invoice_of, lock_invoice_and_advance, insert_event, object_ref, one_ref, no_refs,
}
use tally_agentic_memory.Correspondence.Gates.{GateState, GateResult, failed, not_run}
use tally_agentic_memory.Correspondence.Provider.{ControlledSendReceipt}

pub record SendResult : Type 0 where
  pub send_attempt_id : String
  pub send_state : String
  pub gate_state : String
  pub provider_message_id : Option String
  pub blocked_reason : Option String
  pub duplicate : Bool

-- The arguments of `approve_and_send`; `gate_checks` are the results that the checks give.
pub record SendCall : Type 0 where
  pub draft_id : String
  pub idempotency_key : String
  pub second_approver_display : String
  pub gate_checks : List (String × GateResult)

-- The values of `uuid4()` and of `now()`.
pub record SendIds : Type 0 where
  pub attempt : String
  pub event : String
  pub now : ℕ

unfoldable pub draft_of : Db → String → Option Draft
draft_of db id = find (λ (d : Draft). str_eq d.id id) db.correspondence_drafts

unfoldable pub attempt_of : Db → String → Option SendAttempt
attempt_of db key = find (λ (a : SendAttempt). str_eq a.idempotency_key key) db.send_attempts

abbrev pub gate_state_value : GateState → String
gate_state_value s = elim s [
  | GateState.verified ↦ "VERIFIED"
  | failed ↦ "FAILED"
  | not_run ↦ "NOT_RUN"
]

abbrev pub gate_of : String → Bool → String × GateResult
gate_of code passes = (
  code,
  record { gate_code = code; state = if passes then GateState.verified else failed; detail = none },
)

abbrev pub summary_of_event : String → String
summary_of_event event_type =
    if str_eq event_type "correspondence.sent"
    then "Adjustment request sent to the controlled demonstration inbox"
    else if str_eq event_type "correspondence.send_blocked"
    then "Send blocked. Required memory or evidence check failed."
    else if str_eq event_type "correspondence.send_failed"
    then "Controlled provider did not acknowledge; will retry."
    else event_type

-- What an event of a send says.
pub record SendEvent : Type 0 where
  pub event_type : String
  pub state : TaskState
  pub code : Option String
  pub message_id : Option String

abbrev pub blocked_event : Option String → SendEvent
blocked_event reason = record {
  event_type = "correspondence.send_blocked";
  state = TaskState.blocked;
  code = reason;
  message_id = none;
}

abbrev pub failed_event : String → SendEvent
failed_event reason = record {
  event_type = "correspondence.send_failed";
  state = TaskState.failed;
  code = some reason;
  message_id = none;
}

abbrev pub sent_event : ControlledSendReceipt → SendEvent
sent_event receipt = record {
  event_type = "correspondence.sent";
  state = TaskState.completed;
  code = none;
  message_id = some receipt.provider_message_id;
}

-- A successful send keeps the status of the invoice.
unfoldable pub send_status : Db → String → SendEvent → String
send_status db invoice_id e =
    if str_eq e.event_type "correspondence.sent"
    then elim (invoice_of db invoice_id) [ none ↦ "READY_TO_SEND" | some i ↦ i.status ]
    else "SEND_FAILED"

module _ (python : Python) (call : SendCall) (ids : SendIds) where
  unfoldable pub send_event : String → SendEvent → String → ℕ → Event
  send_event invoice_id e status sequence = record {
    id = ids.event;
    invoice_id = invoice_id;
    sequence = sequence;
    event_type = e.event_type;
    occurred_at = ids.now;
    role = "CORRESPONDENCE_AGENT";
    task = "SEND_CORRESPONDENCE";
    tool_display_name = some "Controlled mail provider";
    state = e.state;
    aggregate_status = status;
    summary = summary_of_event e.event_type;
    initiated_by = none;
    actor_display = call.second_approver_display;
    input_object_refs = no_refs;
    produced_object_refs = elim e.message_id [
      | none ↦ no_refs
      | some id ↦ one_ref (object_ref "send_receipt" id 1)
    ];
    output_count = none;
    public_error = elim e.code [
      | none ↦ none
      | some c ↦ some (Json.obj (field "code" (Json.str c) end))
    ];
  }

  -- `none` is the `INVOICE_NOT_FOUND` of the lock.
  unfoldable pub emit_send_event : String → SendEvent → Db → Option Db
  unfolding send_status send_event
  emit_send_event invoice_id e db =
      let status = send_status db invoice_id e in
      elim (lock_invoice_and_advance invoice_id ready_for_reconstruction status 1 ids.now none db) [
        | none ↦ none
        | some (sequence, advanced) ↦
            some (insert_event (send_event invoice_id e status sequence) advanced)
      ]
