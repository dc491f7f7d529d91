-- ===== src/Ingestion/Answers.antt =====
-- An answered request stays answered, and is answered alike.
use mathlib.Core.Path.{subst}
use tally_agentic_memory.Prelude.{
  ℕ, ◌≡◌, ◌≢◌, refl, sym, ap, ◌∙◌, inl, inr, String, Bool, true, false, Option, none, some, List,
  [], ◌∷◌, find, arith, Bool-cases, str_eq, eq_iff, if◌then◌else◌,
}
use tally_agentic_memory.Prelude.Json.{Json}
use tally_agentic_memory.Prelude.Python.{Python}
use tally_agentic_memory.Prelude.Result.{ok}
use tally_agentic_memory.Tables.{StoredInvoiceSource, IngestionRequest, Db}
use tally_agentic_memory.Store.{update_where, insert_event}
use tally_agentic_memory.Ingestion.Requests.{
  IngestionReservation, RequestCall, request_of, reserve_ingestion, record_source_stored,
  complete_duplicate_ingestion, stored_in, linked,
}
use tally_agentic_memory.Ingestion.Finalize.{
  FinalizeReceipt, answered_with, receipt_snapshot, opened_invoice, finalize_received_invoice,
}
use tally_agentic_memory.Ingestion.Effects.{
  Answered, Unanswered, reserve_cases, store_cases, link_cases, finalize_cases,
}

abbrev pub request_at : String → List IngestionRequest → Option IngestionRequest
request_at key rs = find (λ r. str_eq r.idempotency_key key) rs

abbrev pub KeepsKey : (IngestionRequest → IngestionRequest) → Type 0
KeepsKey f = (r : IngestionRequest) → (f r).idempotency_key ≡ r.idempotency_key

module _ (key : String) (f : IngestionRequest → IngestionRequest) (keeps : KeepsKey f) where
  abbrev with_key : IngestionRequest → Bool
  with_key r = str_eq r.idempotency_key key

  abbrev step : IngestionRequest → IngestionRequest
  step r = if with_key r then f r else r

  step-key : (r : IngestionRequest) → (step r).idempotency_key ≡ r.idempotency_key
  step-key r = elim (Bool-cases (with_key r)) [ inl e ↦ rw e (keeps r) | inr e ↦ rw e refl ]

  -- An update under one key is of the request under that key, and of no other.
  pub request_at-own :
      (rs : List IngestionRequest) (r : IngestionRequest)
      → request_at key rs ≡ some r
      → request_at key (update_where with_key f rs) ≡ some (f r)
  request_at-own [] r h = absurd (ground (arith, h))
  request_at-own (q ∷ rs) r h = elim (Bool-cases (with_key q)) [
    | inl e ↦
        let same : q ≡ r = ground (arith, h, e) in
        let g : str_eq (f q).idempotency_key key ≡ true =
          subst (λ x. str_eq x key ≡ true) (sym (keeps q)) e in
        rw (e, g) (ap (λ x. some (f x)) same)
    | inr e ↦
        let rest : request_at key rs ≡ some r = rw e at h in rw (e, e) (request_at-own rs r rest)
  ]

  request_at-other :
      (other : String) (rs : List IngestionRequest)
      → other ≢ key
      → request_at other (update_where with_key f rs) ≡ request_at other rs
  request_at-other other [] n = refl
  request_at-other other (q ∷ rs) n = elim (Bool-cases (str_eq q.idempotency_key other)) [
    | inl e ↦
        let same : q.idempotency_key ≡ other = (eq_iff q.idempotency_key other).0 e in
        let apart : with_key q ≡ false = ground (arith, n, same, eq_iff q.idempotency_key key) in
        ground (arith, apart, e)
    | inr e ↦
        let g : str_eq (step q).idempotency_key other ≡ false =
          subst (λ x. str_eq x other ≡ false) (sym (step-key q)) e in
        rw (g, e) (request_at-other other rs n)
  ]

-- An answered request is not the one that a transaction finds unanswered.
apart_keys :
    (key hash : String) (j : Json) (call : RequestCall) (db : Db) (r : IngestionRequest)
    → Answered key hash j db
    → Unanswered call db r
    → key ≢ call.idempotency_key
unfolding request_of
apart_keys key hash j call db r (q, e, _, c, _) (f, _, n) same =
    let found : request_at key db.ingestion_requests ≡ some r =
      subst (λ k. request_at k db.ingestion_requests ≡ some r) (sym same) f in
    let one : q ≡ r = ground (arith, found, e) in
    absurd (n (subst (λ x. x.state ≡ "COMPLETED") one c))

module _ (key hash : String) (j : Json) (db db' : Db) where
  pub Answered-same :
      db'.ingestion_requests ≡ db.ingestion_requests
      → Answered key hash j db
      → Answered key hash j db'
  unfolding request_of
  Answered-same e (r, f, p, c, s) = (r, ap (request_at key) e ∙ f, p, c, s)

  -- An update of an unanswered request.
  Answered-updated :
      (call : RequestCall) (f : IngestionRequest → IngestionRequest) (r : IngestionRequest)
      → KeepsKey f
      → Unanswered call db r
      → db'.ingestion_requests
        ≡ update_where (λ q. str_eq q.idempotency_key call.idempotency_key) f db.ingestion_requests
      → Answered key hash j db
      → Answered key hash j db'
  unfolding request_of
  Answered-updated call f r keeps u e a =
      let n = apart_keys key hash j call db r a u in
      let (q, g, p, c, s) = a in
      let other = request_at-other call.idempotency_key f keeps key db.ingestion_requests n in
      (q, ap (request_at key) e ∙ (other ∙ g), p, c, s)

  pub reserve-Answered :
      (call : RequestCall) (invoice_id source_id : String) (v : IngestionReservation)
      → reserve_ingestion call invoice_id source_id db ≡ ok (v, db')
      → Answered key hash j db
      → Answered key hash j db'
  unfolding request_of
  reserve-Answered call invoice_id source_id v h (r, f, p, c, t) =
      elim (reserve_cases call invoice_id source_id db v db' h) [
        | inl (q, _, _, _, e) ↦ (r, ground (arith, e, f), p, c, t)
        | inr (n, _, e) ↦ (
          r,
          elim (Bool-cases (str_eq call.idempotency_key key)) [
            | inl s ↦
                let same = (eq_iff call.idempotency_key key).0 s in
                let gone : request_at key db.ingestion_requests ≡ none =
                  subst (λ k. request_at k db.ingestion_requests ≡ none) same n in
                absurd (ground (arith, gone, f))
            | inr s ↦ ground (arith, e, s, f)
          ],
          p,
          c,
          t,
        )
      ]

  pub store-Answered :
      (call : RequestCall) (source : StoredInvoiceSource)
      → record_source_stored call source db ≡ ok (tt, db')
      → Answered key hash j db
      → Answered key hash j db'
  store-Answered call source h a = elim (store_cases call source db db' h) [
    | inl e ↦ subst (Answered key hash j) (sym e) a
    | inr (r, u, e) ↦
        Answered-updated call (stored_in source) r (λ q. refl) u
          (ap (λ (d : Db). d.ingestion_requests) e) a
  ]

  pub link-Answered :
      (call : RequestCall) (invoice_id source_id sha256 : String) (snapshot i : Json)
      → complete_duplicate_ingestion call invoice_id source_id sha256 snapshot db ≡ ok (i, db')
      → Answered key hash j db
      → Answered key hash j db'
  link-Answered call invoice_id source_id sha256 snapshot i h a =
      elim (link_cases call invoice_id source_id sha256 snapshot db i db' h) [
        | inl (_, e) ↦ subst (Answered key hash j) (sym e) a
        | inr (r, u, _, _, e) ↦
            Answered-updated call (linked invoice_id source_id snapshot) r (λ q. refl) u
              (ap (λ (d : Db). d.ingestion_requests) e) a
      ]

  module _ (python : Python) (command : FinalizeReceipt) (task_id event_id : String) (now : ℕ) where
    pub finalize-Answered :
        (i : Json)
        → finalize_received_invoice python command task_id event_id now db ≡ ok (i, db')
        → Answered key hash j db
        → Answered key hash j db'
    unfolding opened_invoice insert_event
    finalize-Answered i h a = elim (finalize_cases python command task_id event_id now db i db' h) [
      | inl (_, e) ↦ subst (Answered key hash j) (sym e) a
      | inr (r, (u, _, _, _, _, e)) ↦
          Answered-updated command.call
            (answered_with python command task_id event_id now (
              receipt_snapshot python command task_id event_id now r.reserved_invoice_id
                r.reserved_source_id))
            r (λ q. refl) u (ap (λ (d : Db). d.ingestion_requests) e) a
    ]
