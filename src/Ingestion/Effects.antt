-- ===== src/Ingestion/Effects.antt =====
-- What the transactions of the ingestion do, on each of their branches.
use tally_agentic_memory.Prelude.{
  ℕ, ==_iff, ◌≡◌, ◌≢◌, ◌⊎◌, ◌↔◌, inl, inr, String, true, false, none, some, ◌∷◌, arith, Bool-cases,
  Option-cases, str_eq, eq_iff,
}
use tally_agentic_memory.Prelude.Json.{Json}
use tally_agentic_memory.Prelude.Python.{Python}
use tally_agentic_memory.Prelude.Result.{ok}
use tally_agentic_memory.Tables.{StoredInvoiceSource, IngestionRequest, Db}
use tally_agentic_memory.Ingestion.Requests.{
  IngestionReservation, RequestCall, request_of, reserve_ingestion, record_source_stored,
  complete_duplicate_ingestion, is_bound, new_request, reservation_of, update_request, stored_in,
  linked,
}
use tally_agentic_memory.Ingestion.Finalize.{
  FinalizeReceipt, same_source, receipt_snapshot, violated, opened_invoice, finalize_pending,
  finalize_received_invoice,
}

pub same_source_iff : (s t : StoredInvoiceSource) → (same_source s t ≡ true) ↔ (s ≡ t)
unfolding same_source
same_source_iff s t =
    let b = eq_iff s.bucket_ref_private t.bucket_ref_private in
    let k = eq_iff s.object_key_private t.object_key_private in
    let v = eq_iff s.version_id_private t.version_id_private in
    let d = eq_iff s.sha256 t.sha256 in
    let n = ==_iff s.byte_length t.byte_length in
    (λ h. ground (arith, h, b, k, v, d, n), λ h. ground (arith, h, b, k, v, d, n))

-- The request under the key was answered.
abbrev pub Answered : String → String → Json → Db → Type 0
Answered key hash snapshot db =
    (r : IngestionRequest) × (request_of db key ≡ some r)
    × (r.request_hash ≡ hash)
    × (r.state ≡ "COMPLETED")
    × (r.response_snapshot ≡ some snapshot)

-- A transaction reads the request of the call and finds it unanswered.
abbrev pub Unanswered : RequestCall → Db → IngestionRequest → Type 0
Unanswered call db r =
    (request_of db call.idempotency_key ≡ some r)
    × (r.request_hash ≡ call.request_hash)
    × (r.state ≢ "COMPLETED")

not_completed : (s : String) → str_eq s "COMPLETED" ≡ false → s ≢ "COMPLETED"
not_completed s h e = absurd (ground (arith, h, (eq_iff s "COMPLETED").1 e))

pub reserve_cases :
    (call : RequestCall) (invoice_id source_id : String) (db : Db) (v : IngestionReservation)
    (db' : Db)
    → reserve_ingestion call invoice_id source_id db ≡ ok (v, db')
    → ((r : IngestionRequest) × (request_of db call.idempotency_key ≡ some r)
        × (r.request_hash ≡ call.request_hash)
        × (v ≡ reservation_of invoice_id r)
        × (db' ≡ db))
      ⊎ ((request_of db call.idempotency_key ≡ none)
          × (v ≡ reservation_of invoice_id (new_request call invoice_id source_id))
          × (db' ≡ record db {
            ingestion_requests = new_request call invoice_id source_id ∷ db.ingestion_requests;
          }))
unfolding reserve_ingestion
reserve_cases call invoice_id source_id db v db' h =
    elim (Option-cases (request_of db call.idempotency_key)) [
      | inr (r, e) ↦ inl (
        r,
        e,
        ground (arith, h, e, eq_iff r.request_hash call.request_hash),
        ground (arith, h, e),
        ground (arith, h, e),
      )
      | inl e ↦ inr (e, ground (arith, h, e), ground (arith, h, e))
    ]

pub store_cases :
    (call : RequestCall) (source : StoredInvoiceSource) (db db' : Db)
    → record_source_stored call source db ≡ ok (tt, db')
    → (db' ≡ db)
      ⊎ ((r : IngestionRequest) × Unanswered call db r
          × (db' ≡ update_request call.idempotency_key (stored_in source) db))
unfolding record_source_stored
store_cases call source db db' h = elim (Option-cases (request_of db call.idempotency_key)) [
  | inl e ↦ absurd (ground (arith, h, e))
  | inr (r, e) ↦
      let same : r.request_hash ≡ call.request_hash =
        ground (arith, h, e, eq_iff r.request_hash call.request_hash) in
      elim (Bool-cases (str_eq r.state "COMPLETED")) [
        | inl c ↦ inl (ground (arith, h, e, c))
        | inr c ↦ inr (r, (e, same, not_completed r.state c), ground (arith, h, e, c))
      ]
]

pub link_cases :
    (call : RequestCall) (invoice_id source_id sha256 : String) (snapshot : Json) (db : Db)
    (j : Json) (db' : Db)
    → complete_duplicate_ingestion call invoice_id source_id sha256 snapshot db ≡ ok (j, db')
    → (Answered call.idempotency_key call.request_hash j db × (db' ≡ db))
      ⊎ ((r : IngestionRequest) × Unanswered call db r
          × (is_bound db invoice_id source_id sha256 ≡ true)
          × (j ≡ snapshot)
          × (db' ≡ update_request call.idempotency_key (linked invoice_id source_id snapshot) db))
unfolding complete_duplicate_ingestion
link_cases call invoice_id source_id sha256 snapshot db j db' h =
    elim (Option-cases (request_of db call.idempotency_key)) [
      | inl e ↦ absurd (ground (arith, h, e))
      | inr (r, e) ↦
          let same : r.request_hash ≡ call.request_hash =
            ground (arith, h, e, eq_iff r.request_hash call.request_hash) in
          elim (Bool-cases (str_eq r.state "COMPLETED")) [
            | inl c ↦ inl (
              (r, e, same, (eq_iff r.state "COMPLETED").0 c, ground (arith, h, e, c)),
              ground (arith, h, e, c),
            )
            | inr c ↦ inr (
              r,
              (e, same, not_completed r.state c),
              ground (arith, h, e, c),
              ground (arith, h, e, c),
              ground (arith, h, e, c),
            )
          ]
    ]

module _ (python : Python) (command : FinalizeReceipt) (task_id event_id : String) (now : ℕ) where
  -- A first finalisation of a request whose source was stored.
  abbrev pub Opens : Db → Json → Db → IngestionRequest → Type 0
  Opens db j db' r =
      Unanswered command.call db r
      × (r.state ≡ "SOURCE_STORED_DB_PENDING")
      × (r.stored_source ≡ some command.stored_source)
      × (violated python command task_id event_id now r.reserved_invoice_id r.reserved_source_id db
          ≡ none)
      × (j
          ≡ receipt_snapshot python command task_id event_id now r.reserved_invoice_id
              r.reserved_source_id)
      × (db'
          ≡ opened_invoice python command task_id event_id now r.reserved_invoice_id
              r.reserved_source_id db)

  finalize_pending-Opens :
      (db : Db) (r : IngestionRequest) (j : Json) (db' : Db)
      → Unanswered command.call db r
      → r.state ≡ "SOURCE_STORED_DB_PENDING"
      → finalize_pending python command task_id event_id now r db ≡ ok (j, db')
      → Opens db j db' r
  unfolding finalize_pending
  finalize_pending-Opens db r j db' u s h = elim (Option-cases r.stored_source) [
    | inl e ↦ absurd (ground (arith, h, e))
    | inr (stored, e) ↦
        let same : same_source stored command.stored_source ≡ true = ground (arith, h, e) in
        let clear : violated python command task_id event_id now r.reserved_invoice_id
              r.reserved_source_id db
            ≡ none =
          ground (arith, h, e, same) in
        (
          u,
          s,
          ground (arith, e, (same_source_iff stored command.stored_source).0 same),
          clear,
          ground (arith, h, e, same, clear),
          ground (arith, h, e, same, clear),
        )
  ]

  pub finalize_cases :
      (db : Db) (j : Json) (db' : Db)
      → finalize_received_invoice python command task_id event_id now db ≡ ok (j, db')
      → (Answered command.call.idempotency_key command.call.request_hash j db × (db' ≡ db))
        ⊎ ((r : IngestionRequest) × Opens db j db' r)
  unfolding finalize_received_invoice
  finalize_cases db j db' h = elim (Option-cases (request_of db command.call.idempotency_key)) [
    | inl e ↦ absurd (ground (arith, h, e))
    | inr (r, e) ↦
        let same : r.request_hash ≡ command.call.request_hash =
          ground (arith, h, e, eq_iff r.request_hash command.call.request_hash) in
        elim (Bool-cases (str_eq r.state "COMPLETED")) [
          | inl c ↦ inl (
            (r, e, same, (eq_iff r.state "COMPLETED").0 c, ground (arith, h, e, c)),
            ground (arith, h, e, c),
          )
          | inr c ↦
              let waiting : str_eq r.state "SOURCE_STORED_DB_PENDING" ≡ true =
                ground (arith, h, e, c) in
              inr (
                r,
                finalize_pending-Opens db r j db' (e, same, not_completed r.state c)
                    ((eq_iff r.state "SOURCE_STORED_DB_PENDING").0 waiting)
                    (ground (arith, h, e, c)),
              )
        ]
  ]
