-- ===== src/Ingestion/Finalize.antt =====
-- src/platform/intake_repository.py: finalize_received_invoice, which opens the invoice.
use tally_agentic_memory.Prelude.{
  ℕ, ◌==◌, String, Bool, not, ◌&&◌, Option, none, some, [], ◌∷◌, ◌++◌, any, str_eq, if◌then◌else◌,
}
use tally_agentic_memory.Prelude.Int.{pos}
use tally_agentic_memory.Prelude.Json.{Json, field, end}
use tally_agentic_memory.Prelude.Python.{Python, concat}
use tally_agentic_memory.Prelude.Result.{Result, ok, err}
use tally_agentic_memory.Intake.{
  IntakeState, TaskState, pending, extract_invoice_claims, task_input_fingerprint,
}
use tally_agentic_memory.Tables.{
  StoredInvoiceSource, Source, Task, Invoice, Event, IngestionRequest, Db,
}
use tally_agentic_memory.Store.{insert_event, object_ref, one_ref, no_refs}
use tally_agentic_memory.Ingestion.Requests.{
  RequestCall, request_of, is_pdf_of, update_request, completed_answer,
}

-- `FinalizeReceipt`: the call, and what the invoice and its source are to say.
pub record FinalizeReceipt : Type 0 where
  pub call : RequestCall
  pub carrier_id : String
  pub display_name : String
  pub mime_type : String
  pub stored_source : StoredInvoiceSource
  pub provenance_classification : String
  pub public_disclosure : String

-- `stored_tuple == command_tuple`
unfoldable pub same_source : StoredInvoiceSource → StoredInvoiceSource → Bool
same_source s t =
    str_eq s.bucket_ref_private t.bucket_ref_private
    && (str_eq s.object_key_private t.object_key_private
        && (str_eq s.version_id_private t.version_id_private
            && (str_eq s.sha256 t.sha256 && s.byte_length == t.byte_length)))

abbrev source_refs : String → Json
source_refs source_id = one_ref (object_ref "invoice_source" source_id 1)

module _ (python : Python) (command : FinalizeReceipt) (task_id event_id : String) (now : ℕ) where
  unfoldable pub received_invoice : String → Invoice
  received_invoice invoice_id = record {
    id = invoice_id;
    carrier_id = command.carrier_id;
    invoice_no = none;
    s3_key = command.stored_source.object_key_private;
    sha256 = command.stored_source.sha256;
    source_version_id = command.stored_source.version_id_private;
    display_name = command.display_name;
    received_at = now;
    intake_state = IntakeState.received;
    aggregate_status = "RECEIVED";
    status = "RECEIVED";
    status_sequence = 1;
    row_version = 1;
    active_claim_set_version = none;
    updated_at = now;
  }

  unfoldable pub received_source : String → String → Source
  received_source invoice_id source_id = record {
    id = source_id;
    invoice_id = invoice_id;
    source_type = "INVOICE_PDF";
    display_filename = command.display_name;
    mime_type = command.mime_type;
    stored = command.stored_source;
    preservation_status = "VERSION_VERIFIED";
    provenance_classification = command.provenance_classification;
    public_disclosure = command.public_disclosure;
    received_at = now;
  }

  unfoldable pub extraction_task : String → String → Task
  extraction_task invoice_id source_id = record {
    id = task_id;
    invoice_id = invoice_id;
    task_type = extract_invoice_claims;
    task_version = 1;
    state = pending;
    initiated_by = command.call.actor_id;
    actor_display = command.call.actor_display;
    knowledge_cutoff_at = now;
    input_fingerprint =
        task_input_fingerprint python extract_invoice_claims (source_refs source_id);
    input_object_refs = source_refs source_id;
    current_attempt = 0;
    lease_owner = none;
    lease_expires_at = none;
    not_before = none;
    started_at = none;
    completed_at = none;
    public_summary = "Waiting to extract carrier claims";
    private_error_code = none;
    created_at = now;
    updated_at = now;
  }

  unfoldable pub received_event : String → String → Event
  received_event invoice_id source_id = record {
    id = event_id;
    invoice_id = invoice_id;
    sequence = 1;
    event_type = "invoice.received";
    occurred_at = now;
    role = "INTAKE_AGENT";
    task = "PRESERVE_INVOICE_SOURCE";
    tool_display_name = some "Amazon S3";
    state = TaskState.completed;
    aggregate_status = "RECEIVED";
    summary = "Invoice received and original source verified";
    initiated_by = command.call.actor_id;
    actor_display = command.call.actor_display;
    input_object_refs = no_refs;
    produced_object_refs = source_refs source_id;
    output_count = none;
    public_error = none;
  }

  unfoldable pub receipt_snapshot : String → String → Json
  receipt_snapshot invoice_id source_id =
      let source = Json.obj (
        field "source_id" (Json.str source_id) (
          field "filename" (Json.str command.display_name) (
            field "mime_type" (Json.str command.mime_type) (
              field "preservation_status" (Json.str "VERSION_VERIFIED")
                (field "claimed_total_minor" Json.null (field "currency" Json.null end)))))) in
      let invoice = Json.obj (
        field "invoice_id" (Json.str invoice_id) (
          field "display_name" (Json.str command.display_name) (
            field "status" (Json.str "RECEIVED") (
              field "status_sequence" (Json.int (pos 1)) (
                field "received_at" (Json.str (python.isoformat_time now)) (
                  field "invoice_source" source
                    (field "recommendation" Json.null (field "next_action" Json.null end)))))))) in
      let invoice_path = "/api/invoices/" ∷ invoice_id ∷ [] in
      let links = Json.obj (
        field "self" (Json.str (concat invoice_path)) (
          field "workbench" (Json.str (concat ("/invoices/" ∷ invoice_id ∷ []))) (
            field "events" (Json.str (concat (invoice_path ++ ("/events" ∷ [])))) (
              field "source"
                (Json.str (concat (invoice_path ++ ("/sources/" ∷ source_id ∷ "/content" ∷ []))))
                end)))) in
      Json.obj (field "invoice" invoice (field "links" links end))

  -- The constraint that the rows of the invoice and its source would violate.
  unfoldable pub violated : String → String → Db → Option String
  violated invoice_id source_id db =
      if any (λ (i : Invoice). str_eq i.id invoice_id) db.invoices
      then some "invoices_pkey"
      else if any (λ (i : Invoice). str_eq i.sha256 command.stored_source.sha256) db.invoices
      then some "invoices_sha256_idx"
      else if any (λ (s : Source). str_eq s.id source_id) db.sources
      then some "invoice_sources_pkey"
      else if any (is_pdf_of invoice_id) db.sources
      then some "invoice_sources_primary_idx"
      else if any
          (λ (s : Source).
            str_eq s.stored.object_key_private command.stored_source.object_key_private
            && str_eq s.stored.version_id_private command.stored_source.version_id_private)
          db.sources
      then some "invoice_sources_s3_version_idx"
      else none

  abbrev pub answered_with : Json → IngestionRequest → IngestionRequest
  answered_with snapshot r = record r { state = "COMPLETED"; response_snapshot = some snapshot }

  -- The rows of the invoice, its source, its task and its event, and the answer.
  unfoldable pub opened_invoice : String → String → Db → Db
  unfolding received_invoice received_source extraction_task received_event receipt_snapshot
  opened_invoice invoice_id source_id db =
      let written : Db = record db {
        invoices = db.invoices ++ received_invoice invoice_id ∷ [];
        sources = db.sources ++ received_source invoice_id source_id ∷ [];
        tasks = db.tasks ++ extraction_task invoice_id source_id ∷ [];
      } in
      update_request command.call.idempotency_key
        (answered_with (receipt_snapshot invoice_id source_id))
        (insert_event (received_event invoice_id source_id) written)

  unfoldable pub finalize_pending : IngestionRequest → Db → Result {0} String (Json × Db)
  unfolding violated
  finalize_pending r db = elim r.stored_source [
    | none ↦ err "TypeError"
    | some stored ↦
        if not (same_source stored command.stored_source)
        then err "SOURCE_BINDING_MISMATCH"
        else elim (violated r.reserved_invoice_id r.reserved_source_id db) [
          | some name ↦ err name
          | none ↦ ok (
            receipt_snapshot r.reserved_invoice_id r.reserved_source_id,
            opened_invoice r.reserved_invoice_id r.reserved_source_id db,
          )
        ]
  ]

  unfoldable pub finalize_received_invoice : Db → Result {0} String (Json × Db)
  finalize_received_invoice db = elim (request_of db command.call.idempotency_key) [
    | none ↦ err "INGESTION_REQUEST_NOT_FOUND"
    | some r ↦
        if not (str_eq r.request_hash command.call.request_hash)
        then err "IDEMPOTENCY_CONFLICT"
        else if str_eq r.state "COMPLETED"
        then completed_answer r.response_snapshot db
        else if not (str_eq r.state "SOURCE_STORED_DB_PENDING")
        then err (concat ("INGESTION_NOT_FINALIZABLE:" ∷ r.state ∷ []))
        else finalize_pending r db
  ]
