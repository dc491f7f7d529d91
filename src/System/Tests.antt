-- ===== src/System/Tests.antt =====
-- The theorems at a concrete history: an invoice is received, and its recommendation is sealed.
use tally_agentic_memory.Prelude.{◌≡◌, ◌↔◌, refl, String, true, false, none, [], ◌∷◌}
use tally_agentic_memory.Prelude.Int.{pos}
use tally_agentic_memory.Prelude.Json.{Json}
use tally_agentic_memory.Prelude.Result.{Result, ok, err}
use tally_agentic_memory.Samples.{plain}
use tally_agentic_memory.Tables.{StoredInvoiceSource, Db}
use tally_agentic_memory.Tables.Decisions.{RecommendationRow}
use tally_agentic_memory.Store.{invoice_of, lock_invoice_and_advance, advanced, insert_event}
use tally_agentic_memory.Seal.Manifest.{build_seal_manifest, seal_digest, is_stale}
use tally_agentic_memory.Seal.Inputs.{next_revision}
use tally_agentic_memory.Seal.Approve.{
  SealResult, ApprovalCall, SealIds, recommendation_of, approval_of, digest_of, seal_recommendation,
  approve_and_seal,
}
use tally_agentic_memory.Seal.Unique.{IsSealed}
use tally_agentic_memory.Seal.Made.{MakesSeal, IsApprovable, made_exactly}
use tally_agentic_memory.Ingestion.Requests.{
  IngestionReservation, RequestCall, request_of, reserve_ingestion, record_source_stored,
}
use tally_agentic_memory.Ingestion.Finalize.{
  FinalizeReceipt, same_source, violated, received_invoice, received_source, extraction_task,
  received_event, receipt_snapshot, opened_invoice, finalize_pending, finalize_received_invoice,
}
use tally_agentic_memory.System.History.{
  History, begin, continue, reserves, stores, finalizes, approves,
}
use tally_agentic_memory.System.Invariant.{IsSound, History-IsSound}
use tally_agentic_memory.System.Replay.{receipt_replays, approval_replays}

abbrev recommendation : RecommendationRow
recommendation = record {
  id = "R1";
  reconstruction_id = "K1";
  invoice_id = "I1";
  version = 1;
  digest = "d";
  state = "FROZEN";
  recommendation_type = "DISPUTE";
  applicable_rule_id = none;
  disputed_amount_minor = pos 100;
  supported_amount_minor = pos 0;
  claimed_amount_minor = pos 100;
  currency = "USD";
}

abbrev start : Db
start = record {
  tasks = [];
  attempts = [];
  invoices = [];
  sources = [];
  events = [];
  outbox = [];
  extraction_runs = [];
  claim_sets = [];
  extracted_claims = [];
  retry_requests = [];
  recommendations = recommendation ∷ [];
  charged_day_judgments = [];
  reconstructions = [];
  applicable_rules = [];
  approvals = [];
  decision_seals = [];
  query_log = [];
  correspondence_drafts = [];
  send_attempts = [];
  send_gate_runs = [];
  ingestion_requests = [];
}

abbrev source : StoredInvoiceSource
source = record {
  bucket_ref_private = "b";
  object_key_private = "k";
  version_id_private = "v";
  sha256 = "h";
  byte_length = 9;
}

abbrev call : RequestCall
call = record {
  idempotency_key = "key";
  request_hash = "q";
  actor_id = none;
  actor_display = "Ana";
}

abbrev command : FinalizeReceipt
command = record {
  call = call;
  carrier_id = "C1";
  display_name = "invoice.pdf";
  mime_type = "application/pdf";
  stored_source = source;
  provenance_classification = "SYNTHETIC_DEMO";
  public_disclosure = "";
}

abbrev approval : ApprovalCall
approval = record {
  recommendation_id = "R1";
  expected_version = 1;
  expected_digest = "d";
  idempotency_key = "seal";
  approver_user_id = none;
  approver_display = "Ana";
  approver_kind = "SYNTHETIC_DEMO";
  decision = "APPROVE";
}

abbrev ids : SealIds
ids = record { approval = "A1"; seal = "S9"; event = "E2" }

abbrev after {ℓ} : {A : Type ℓ} → Db → Result {ℓ} String (A × Db) → Db
after db (ok (a, db')) = db'
after db (err e) = db

abbrev with_request : Db
with_request = after start (reserve_ingestion call "I1" "S1" start)

abbrev stored : Db
stored = after with_request (record_source_stored call source with_request)

abbrev received : Db
received = after stored (finalize_received_invoice plain command "T1" "E1" 5 stored)

abbrev sealed : Db
sealed = after received (approve_and_seal plain approval ids 7 received)

abbrev reservation : IngestionReservation
reservation = record {
  invoice_id = "I1";
  source_id = "S1";
  state = "RESERVED";
  response_snapshot = none;
  is_new = true;
  stored_source = none;
}

abbrev answer : Json
answer = receipt_snapshot plain command "T1" "E1" 5 "I1" "S1"

abbrev seal_result : SealResult
seal_result = record {
  approval_id = "A1";
  seal_id = "S9";
  revision = 1;
  seal_digest = "sha256:hash";
  recommendation_type = "DISPUTE";
  already_sealed = false;
}

reserved_1 : reserve_ingestion call "I1" "S1" start ≡ ok (reservation, with_request)
unfolding reserve_ingestion request_of
reserved_1 = refl

stored_1 : record_source_stored call source with_request ≡ ok (tt, stored)
unfolding reserve_ingestion request_of record_source_stored
stored_1 = refl

received_1 : finalize_received_invoice plain command "T1" "E1" 5 stored ≡ ok (answer, received)
unfolding reserve_ingestion request_of record_source_stored finalize_received_invoice
    finalize_pending same_source violated
received_1 = refl

sealed_1 : approve_and_seal plain approval ids 7 received ≡ ok (seal_result, sealed)
unfolding reserve_ingestion request_of record_source_stored finalize_received_invoice
    finalize_pending same_source violated opened_invoice received_invoice received_source
    extraction_task received_event insert_event approve_and_seal recommendation_of approval_of
    is_stale seal_recommendation lock_invoice_and_advance invoice_of advanced digest_of seal_digest
    build_seal_manifest next_revision
sealed_1 = refl

abbrev history : History start received
history =
    continue stored received
      (continue with_request stored
        (continue start with_request begin
          (reserves call "I1" "S1" reservation with_request reserved_1))
        (stores call source stored stored_1))
      (finalizes plain command "T1" "E1" 5 answer received received_1)

abbrev seal_history : History received sealed
seal_history =
    continue received sealed begin (approves plain approval ids 7 seal_result sealed sealed_1)

start-IsSound : IsSound start
start-IsSound = ((tt, tt), (tt, (tt, tt, tt, tt, tt)))

received-IsSound : IsSound received
received-IsSound = History-IsSound start received history start-IsSound

History-IsSound_example : IsSound sealed
History-IsSound_example = History-IsSound received sealed seal_history received-IsSound

receipt_replays_example :
    finalize_received_invoice plain command "T8" "E8" 9 sealed ≡ ok (answer, sealed)
receipt_replays_example =
    receipt_replays plain command "T1" "E1" "T8" "E8" 5 9 stored answer received sealed received_1
      seal_history

approval_replays_example :
    approve_and_seal plain approval ids 9 sealed
    ≡ ok (record seal_result { already_sealed = true }, sealed)
approval_replays_example =
    approval_replays plain approval ids ids 7 9 received seal_result sealed sealed sealed_1 begin

received-IsSealed : IsSealed received
unfolding finalize_received_invoice request_of record_source_stored reserve_ingestion
    finalize_pending same_source opened_invoice insert_event
received-IsSealed = (tt, tt, tt, tt, tt)

made_exactly_example :
    MakesSeal plain approval ids 7 received
    ↔ ((rec : RecommendationRow) × IsApprovable plain approval ids 7 received rec)
made_exactly_example = made_exactly plain approval ids 7 received received-IsSealed
