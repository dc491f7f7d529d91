-- ===== src/Ingestion/Replay.antt =====
-- What an answer leaves behind, and how an answered request is answered again.
use mathlib.Core.Path.{subst}
use tally_agentic_memory.Prelude.{
  ℕ, ◌≡◌, refl, sym, ap, ◌∙◌, inl, inr, String, some, str_eq, arith, eq_iff,
}
use tally_agentic_memory.Prelude.Json.{Json}
use tally_agentic_memory.Prelude.Python.{Python}
use tally_agentic_memory.Prelude.Result.{ok}
use tally_agentic_memory.Tables.{Db, IngestionRequest}
use tally_agentic_memory.Store.{update_where, insert_event}
use tally_agentic_memory.Ingestion.Requests.{
  IngestionReservation, RequestCall, request_of, reserve_ingestion, complete_duplicate_ingestion,
  reservation_of, linked,
}
use tally_agentic_memory.Ingestion.Finalize.{
  FinalizeReceipt, answered_with, opened_invoice, receipt_snapshot, finalize_received_invoice,
}
use tally_agentic_memory.Ingestion.Effects.{Answered, Unanswered, link_cases, finalize_cases}
use tally_agentic_memory.Ingestion.Answers.{KeepsKey, request_at, request_at-own}

-- The row that an update of the call's request leaves.
updated_row :
    (call : RequestCall) (f : IngestionRequest → IngestionRequest) (r : IngestionRequest)
    (db db' : Db)
    → KeepsKey f
    → Unanswered call db r
    → db'.ingestion_requests
      ≡ update_where (λ q. str_eq q.idempotency_key call.idempotency_key) f db.ingestion_requests
    → request_of db' call.idempotency_key ≡ some (f r)
unfolding request_of
updated_row call f r db db' keeps (u, _, _) e =
    ap (request_at call.idempotency_key) e
    ∙ request_at-own call.idempotency_key f keeps db.ingestion_requests r u

-- The request of a duplicate that was linked is answered.
pub link_answers :
    (call : RequestCall) (invoice_id source_id sha256 : String) (snapshot : Json) (db : Db)
    (j : Json) (db' : Db)
    → complete_duplicate_ingestion call invoice_id source_id sha256 snapshot db ≡ ok (j, db')
    → Answered call.idempotency_key call.request_hash j db'
link_answers call invoice_id source_id sha256 snapshot db j db' h =
    elim (link_cases call invoice_id source_id sha256 snapshot db j db' h) [
      | inl (a, e) ↦ subst (Answered call.idempotency_key call.request_hash j) (sym e) a
      | inr (r, u, _, i, e) ↦ (
        linked invoice_id source_id snapshot r,
        updated_row call (linked invoice_id source_id snapshot) r db db' (λ q. refl) u
            (ap (λ (d : Db). d.ingestion_requests) e),
        u.1,
        refl,
        ap some (sym i),
      )
    ]

module _ (python : Python) (command : FinalizeReceipt) (task_id event_id : String) (now : ℕ) where
  -- The request of an invoice that was finalised is answered.
  pub finalize_answers :
      (db : Db) (j : Json) (db' : Db)
      → finalize_received_invoice python command task_id event_id now db ≡ ok (j, db')
      → Answered command.call.idempotency_key command.call.request_hash j db'
  unfolding opened_invoice insert_event
  finalize_answers db j db' h =
      elim (finalize_cases python command task_id event_id now db j db' h) [
        | inl (a, e) ↦
            subst (Answered command.call.idempotency_key command.call.request_hash j) (sym e) a
        | inr (r, (u, _, _, _, i, e)) ↦
            let snapshot =
              receipt_snapshot python command task_id event_id now r.reserved_invoice_id
                r.reserved_source_id in
            let f = answered_with python command task_id event_id now snapshot in
            (
              f r,
              updated_row command.call f r db db' (λ q. refl) u
                  (ap (λ (d : Db). d.ingestion_requests) e),
              u.1,
              refl,
              ap some (sym i),
            )
      ]

  pub finalize_again :
      (db : Db) (j : Json)
      → Answered command.call.idempotency_key command.call.request_hash j db
      → finalize_received_invoice python command task_id event_id now db ≡ ok (j, db)
  unfolding finalize_received_invoice
  finalize_again db j (r, e, p, c, s) =
      let same = (eq_iff r.request_hash command.call.request_hash).1 p in
      let complete = (eq_iff r.state "COMPLETED").1 c in ground (arith, e, same, complete, s)

pub link_again :
    (call : RequestCall) (invoice_id source_id sha256 : String) (snapshot : Json) (db : Db)
    (j : Json)
    → Answered call.idempotency_key call.request_hash j db
    → complete_duplicate_ingestion call invoice_id source_id sha256 snapshot db ≡ ok (j, db)
unfolding complete_duplicate_ingestion
link_again call invoice_id source_id sha256 snapshot db j (r, e, p, c, s) =
    let same = (eq_iff r.request_hash call.request_hash).1 p in
    let complete = (eq_iff r.state "COMPLETED").1 c in ground (arith, e, same, complete, s)

-- A reservation of an answered request is COMPLETED and bears the answer.
pub reserve_again :
    (call : RequestCall) (invoice_id source_id : String) (db : Db) (j : Json)
    → Answered call.idempotency_key call.request_hash j db
    → (v : IngestionReservation) × (reserve_ingestion call invoice_id source_id db ≡ ok (v, db))
      × (v.state ≡ "COMPLETED")
      × (v.response_snapshot ≡ some j)
unfolding reserve_ingestion
reserve_again call invoice_id source_id db j (r, e, p, c, s) =
    let same = (eq_iff r.request_hash call.request_hash).1 p in
    (reservation_of invoice_id r, ground (arith, e, same), c, s)
