-- ===== src/Correspondence/Replay.antt =====
-- What a send or a draft that is asked for again gives.
use tally_agentic_memory.Prelude.{
  ◌≡◌, refl, ◌∙◌, inl, inr, String, true, none, some, List, ◌∷◌, arith, str_eq, eq_iff,
  Option-cases,
}
use tally_agentic_memory.Prelude.Python.{Python}
use tally_agentic_memory.Prelude.Result.{ok, Result-cases}
use tally_agentic_memory.Tables.{Db}
use tally_agentic_memory.Tables.Letters.{Draft, SendAttempt}
use tally_agentic_memory.Store.{update_where}
use tally_agentic_memory.Events.Log.{quiet}
use tally_agentic_memory.Correspondence.Gates.{GateResult, evaluate_send_gates}
use tally_agentic_memory.Correspondence.FactPack.{SealedFactPack}
use tally_agentic_memory.Correspondence.Provider.{Provider, send, recipient_class_controlled}
use tally_agentic_memory.Correspondence.Draft.{Prose, draft_of_seal, overall, draft_row, draft}
use tally_agentic_memory.Correspondence.Send.Emission.{
  SendResult, SendCall, SendIds, SendEvent, blocked_event, failed_event, sent_event, draft_of,
  attempt_of, emit_send_event,
}
use tally_agentic_memory.Correspondence.Send.{
  update_attempt, failed_attempt, sent_attempt, send_request_hash, provider_key, gate_results,
  attempt_row, persisted, replayed_attempt, send_blocked, send_failed, send_sent, approve_and_send,
}
use tally_agentic_memory.Correspondence.Sending.{
  Leaves, written, reason, send_cases, with_event_cases, emit-Frame, permitted_sent,
  permitted_failed,
}

permitted_reason :
    (results : List (String × GateResult))
    → (evaluate_send_gates results).permitted ≡ true
    → (evaluate_send_gates results).blocked_reason ≡ none
unfolding evaluate_send_gates
permitted_reason results h = ground (arith, h)

module _ (python : Python) (call : SendCall) (ids : SendIds) where
  -- The tables hold the draft of the call, and an attempt under its key that is answered alike.
  abbrev Kept : SendResult → Db → Type 0
  Kept r db =
      (d : Draft) × (a : SendAttempt) × (draft_of db call.draft_id ≡ some d)
      × (attempt_of db call.idempotency_key ≡ some a)
      × (a.request_hash ≡ send_request_hash python call ids d)
      × (replayed_attempt python call ids a ≡ record r { duplicate = true })

  abbrev row : Draft → SendAttempt
  row d = attempt_row python call ids d (evaluate_send_gates (gate_results python call ids d))

  -- The row of the attempt, after a change of it and the event.
  Kept-emitted :
      (d : Draft) (f : SendAttempt → SendAttempt) (e : SendEvent) (r : SendResult)
      (rest : List SendAttempt) (db mid db' : Db)
      → draft_of db call.draft_id ≡ some d
      → mid.correspondence_drafts ≡ db.correspondence_drafts
      → mid.send_attempts ≡ f (row d) ∷ rest
      → (f (row d)).idempotency_key ≡ call.idempotency_key
      → (f (row d)).request_hash ≡ send_request_hash python call ids d
      → replayed_attempt python call ids (f (row d)) ≡ record r { duplicate = true }
      → emit_send_event python call ids d.invoice_id e mid ≡ some db'
      → Kept r db'
  unfolding draft_of attempt_of
  Kept-emitted d f e r rest db mid db' g h k key hash same o =
      let (_, attempts, drafts) = emit-Frame python call ids d.invoice_id e mid db' o in
      let own = (eq_iff (f (row d)).idempotency_key call.idempotency_key).1 key in
      (d, f (row d), ground (arith, drafts, h, g), ground (arith, attempts, k, own), hash, same)

  abbrev as_is : SendAttempt → SendAttempt
  as_is a = a

  -- The attempts after the update of the new row.
  updated_attempts :
      (f : SendAttempt → SendAttempt) (d : Draft) (db : Db)
      → (update_attempt python call ids f (written python call ids d db)).send_attempts
        ≡ f (row d) ∷ update_where (λ a. str_eq a.id ids.attempt) f db.send_attempts
  unfolding persisted attempt_row
  updated_attempts f d db = let own = (eq_iff ids.attempt ids.attempt).1 refl in ground (arith, own)

  send-Kept :
      (db : Db) (p : Provider) (r : SendResult) (db' : Db) (p' : Provider)
      → approve_and_send python call ids db p ≡ (ok (r, db'), p')
      → Kept r db'
  unfolding send_blocked send_sent send_failed persisted attempt_row
  send-Kept db p r db' p' h = elim (send_cases python call ids db p r db' p' h) [
    | inl ((d, a, e, f, g, same, k), _) ↦
        (d, a, ground (arith, e, k), ground (arith, f, k), g, ground (arith, same))
    | inr (inl (d, (e, _, g), k)) ↦
        let (o, same, _) = with_event_cases python call ids _ _ _ r db' p' k in
        Kept-emitted d as_is (blocked_event (reason python call ids d)) r db.send_attempts db
          (written python call ids d db) db' e refl refl refl refl (ground (arith, same, g)) o
    | inr (inr (d, (e, _, g), k)) ↦
        elim (Result-cases
          (send python (provider_key python call ids d) recipient_class_controlled p)) [
            | inl ((receipt, q), o) ↦
                let (w, same, _) =
                  with_event_cases python call ids _ _ _ r db' p'
                    (permitted_sent python call ids d db p receipt q o ∙ k) in
                let clear = permitted_reason (gate_results python call ids d) g in
                Kept-emitted d (sent_attempt python call ids receipt) (sent_event receipt) r _ db
                  (update_attempt python call ids (sent_attempt python call ids receipt)
                    (written python call ids d db))
                  db' e refl (updated_attempts (sent_attempt python call ids receipt) d db) refl
                  refl (ground (arith, same, g, clear)) w
            | inr (x, o) ↦
                let (w, same, _) =
                  with_event_cases python call ids _ _ _ r db' p'
                    (permitted_failed python call ids d db p x o ∙ k) in
                Kept-emitted d (failed_attempt python call ids x) (failed_event x) r _ db
                  (update_attempt python call ids (failed_attempt python call ids x)
                    (written python call ids d db))
                  db' e refl (updated_attempts (failed_attempt python call ids x) d db) refl refl
                  (ground (arith, same, g)) w
          ]
  ]

-- Once an attempt to send was answered, be it SENT, SEND_BLOCKED or SEND_FAILED_RETRYABLE, the same
-- call gives the same answer as a duplicate, and changes neither the tables nor the provider.
pub send_replays :
    (python : Python) (call : SendCall) (ids again : SendIds) (before : Db) (p : Provider)
    (r : SendResult) (after : Db) (q later : Provider)
    → approve_and_send python call ids before p ≡ (ok (r, after), q)
    → approve_and_send python call again after later
      ≡ (ok (record r { duplicate = true }, after), later)
unfolding approve_and_send
send_replays python call ids again before p r after q later h =
    let (d, a, e, f, g, same) = send-Kept python call ids before p r after q h in
    let equal = (eq_iff a.request_hash (send_request_hash python call again d)).1 g in
    ground (arith, e, f, equal, same)

-- A draft that does not validate is stored and reported as INVALID; when the draft of that seal is
-- asked for again, it is reported as VALIDATED.
pub invalid_reported_valid :
    (python : Python) (pack : SealedFactPack) (prose : Prose) (id again : String) (db : Db)
    → draft_of_seal db pack.decision_seal_id ≡ none
    → overall python pack prose id ≡ "INVALID"
    → let (first, after) = draft python pack prose id db in
      (first.validation_state ≡ "INVALID")
      × ((draft_of_seal after pack.decision_seal_id ≡ some (draft_row python pack prose id))
          × ((draft_row python pack prose id).validation_state ≡ "INVALID"))
      × ((draft python pack prose again after).0.validation_state ≡ "VALIDATED")
unfolding draft draft_of_seal draft_row
invalid_reported_valid python pack prose id again db n i =
    let own = (eq_iff pack.decision_seal_id pack.decision_seal_id).1 refl in
    (ground (arith, n, i), (ground (arith, n, own), i), ground (arith, n, own))

-- A draft leaves the other tables alone.
pub draft-Leaves :
    (python : Python) (pack : SealedFactPack) (prose : Prose) (id : String) (db db' : Db)
    → (draft python pack prose id db).1 ≡ db'
    → Leaves db db'
unfolding draft
draft-Leaves python pack prose id db db' h =
    elim (Option-cases (draft_of_seal db pack.decision_seal_id)) [
      | inl e ↦ (
        quiet (ground (arith, h, e)) (ground (arith, h, e)),
        (ground (arith, h, e), ground (arith, h, e), ground (arith, h, e), ground (arith, h, e)),
      )
      | inr (d, e) ↦ (
        quiet (ground (arith, h, e)) (ground (arith, h, e)),
        (ground (arith, h, e), ground (arith, h, e), ground (arith, h, e), ground (arith, h, e)),
      )
    ]
