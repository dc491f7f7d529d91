-- ===== src/Ingestion/Requests.antt =====
-- src/platform/intake_repository.py: the request to receive an invoice, by its idempotency key.
use tally_agentic_memory.Prelude.{
  ltb, ◌==◌, String, Bool, not, ◌&&◌, ◌||◌, Option, none, some, List, [], ◌∷◌, any, find, str_eq,
  if◌then◌else◌,
}
use tally_agentic_memory.Prelude.Json.{Json}
use tally_agentic_memory.Prelude.Text.{codes}
use tally_agentic_memory.Prelude.Time.{codes_le}
use tally_agentic_memory.Prelude.Sort.{sort}
use tally_agentic_memory.Prelude.Result.{Result, ok, err}
use tally_agentic_memory.Tables.{StoredInvoiceSource, Source, Invoice, IngestionRequest, Db}
use tally_agentic_memory.Store.{update_where}

pub record IngestionReservation : Type 0 where
  pub invoice_id : String
  pub source_id : String
  pub state : String
  pub response_snapshot : Option Json
  pub is_new : Bool
  pub stored_source : Option StoredInvoiceSource

-- The idempotency key, the request's hash and the actor.
pub record RequestCall : Type 0 where
  pub idempotency_key : String
  pub request_hash : String
  pub actor_id : Option String
  pub actor_display : String

unfoldable pub request_of : Db → String → Option IngestionRequest
request_of db key = find (λ r. str_eq r.idempotency_key key) db.ingestion_requests

abbrev pub is_pdf_of : String → Source → Bool
is_pdf_of invoice_id s = str_eq s.invoice_id invoice_id && str_eq s.source_type "INVOICE_PDF"

-- The `JOIN` of the invoices with a digest and their sources. The index
-- `invoice_sources_primary_idx` leaves at most one source of that type.
unfoldable pub bound_to : String → Db → List Invoice → List (Invoice × Source)
bound_to sha256 db [] = []
bound_to sha256 db (i ∷ is) =
    let rest = bound_to sha256 db is in
    if str_eq i.sha256 sha256
    then elim (find (is_pdf_of i.id) db.sources) [ none ↦ rest | some s ↦ (i, s) ∷ rest ]
    else rest

-- `ORDER BY i.received_at, i.id`
abbrev pub bound_le : Invoice × Source → Invoice × Source → Bool
bound_le (i, _) (j, _) =
    ltb i.received_at j.received_at
    || (i.received_at == j.received_at && codes_le (codes i.id) (codes j.id))

abbrev pub first_ids : List (Invoice × Source) → Option (String × String)
first_ids [] = none
first_ids ((i, s) ∷ rows) = some (i.id, s.id)

unfoldable pub find_invoice_by_sha : Db → String → Option (String × String)
unfolding bound_to
find_invoice_by_sha db sha256 = first_ids (sort bound_le (bound_to sha256 db db.invoices))

abbrev pub new_request : RequestCall → String → String → IngestionRequest
new_request call invoice_id source_id = record {
  idempotency_key = call.idempotency_key;
  request_hash = call.request_hash;
  state = "RESERVED";
  initiated_by = call.actor_id;
  actor_display = call.actor_display;
  reserved_invoice_id = invoice_id;
  reserved_source_id = source_id;
  stored_source = none;
  response_snapshot = none;
  deduplicated_invoice_id = none;
  deduplicated_source_id = none;
}

abbrev pub reservation_of : String → IngestionRequest → IngestionReservation
reservation_of invoice_id r = record {
  invoice_id = r.reserved_invoice_id;
  source_id = r.reserved_source_id;
  state = r.state;
  response_snapshot = r.response_snapshot;
  is_new = str_eq r.reserved_invoice_id invoice_id;
  stored_source = r.stored_source;
}

-- `invoice_id` and `source_id` are the values of `uuid4()`: another request that reserved one of
-- them violates an index.
unfoldable pub reserve_ingestion :
    RequestCall → String → String → Db → Result {0} String (IngestionReservation × Db)
unfolding request_of
reserve_ingestion call invoice_id source_id db = elim (request_of db call.idempotency_key) [
  | some r ↦
      if str_eq r.request_hash call.request_hash
      then ok (reservation_of invoice_id r, db)
      else err "IDEMPOTENCY_CONFLICT"
  | none ↦
      if any (λ r. str_eq r.reserved_invoice_id invoice_id) db.ingestion_requests
      then err "ingestion_request_invoice_idx"
      else if any (λ r. str_eq r.reserved_source_id source_id) db.ingestion_requests
      then err "ingestion_request_source_idx"
      else let r = new_request call invoice_id source_id in
        ok (
          reservation_of invoice_id r,
          record db { ingestion_requests = r ∷ db.ingestion_requests },
        )
]

abbrev pub update_request : String → (IngestionRequest → IngestionRequest) → Db → Db
update_request key f db = record db {
  ingestion_requests = update_where (λ r. str_eq r.idempotency_key key) f db.ingestion_requests;
}

abbrev pub stored_in : StoredInvoiceSource → IngestionRequest → IngestionRequest
stored_in source r = record r { state = "SOURCE_STORED_DB_PENDING"; stored_source = some source }

unfoldable pub record_source_stored :
    RequestCall → StoredInvoiceSource → Db → Result {0} String (Unit {0} × Db)
record_source_stored call source db = elim (request_of db call.idempotency_key) [
  | none ↦ err "INGESTION_REQUEST_NOT_FOUND"
  | some r ↦
      if not (str_eq r.request_hash call.request_hash)
      then err "IDEMPOTENCY_CONFLICT"
      else if str_eq r.state "COMPLETED"
      then ok (tt, db)
      else ok (tt, update_request call.idempotency_key (stored_in source) db)
]

-- The `SELECT` of the binding that a duplicate is linked to.
unfoldable pub is_bound : Db → String → String → String → Bool
is_bound db invoice_id source_id sha256 =
    any (λ (i : Invoice). str_eq i.id invoice_id && str_eq i.sha256 sha256) db.invoices
    && any
        (λ (s : Source).
          is_pdf_of invoice_id s && (str_eq s.id source_id && str_eq s.stored.sha256 sha256))
        db.sources

abbrev pub linked : String → String → Json → IngestionRequest → IngestionRequest
linked invoice_id source_id snapshot r = record r {
  state = "COMPLETED";
  response_snapshot = some snapshot;
  deduplicated_invoice_id = some invoice_id;
  deduplicated_source_id = some source_id;
}

-- The snapshot of a completed request: `json.loads(None)` raises.
abbrev pub completed_answer : Option Json → Db → Result {0} String (Json × Db)
completed_answer none db = err "TypeError"
completed_answer (some snapshot) db = ok (snapshot, db)

unfoldable pub complete_duplicate_ingestion :
    RequestCall → String → String → String → Json → Db → Result {0} String (Json × Db)
unfolding is_bound
complete_duplicate_ingestion call invoice_id source_id sha256 snapshot db =
    elim (request_of db call.idempotency_key) [
      | none ↦ err "INGESTION_REQUEST_NOT_FOUND"
      | some r ↦
          if not (str_eq r.request_hash call.request_hash)
          then err "IDEMPOTENCY_CONFLICT"
          else if str_eq r.state "COMPLETED"
          then completed_answer r.response_snapshot db
          else if is_bound db invoice_id source_id sha256
          then ok (
            snapshot,
            update_request call.idempotency_key (linked invoice_id source_id snapshot) db,
          )
          else err "DUPLICATE_SOURCE_BINDING_MISMATCH"
    ]
