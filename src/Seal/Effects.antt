-- ===== src/Seal/Effects.antt =====
-- What an approval reads and writes, on each of its branches.
use tally_agentic_memory.Prelude.{
  ℕ, ◌+◌, ◌≡◌, ◌⊎◌, refl, inl, inr, true, false, none, some, ◌∷◌, any, arith, Option-cases, eq_iff,
}
use tally_agentic_memory.Prelude.Python.{Python}
use tally_agentic_memory.Prelude.Result.{ok}
use tally_agentic_memory.Intake.{ready_for_reconstruction}
use tally_agentic_memory.Tables.{Invoice, Db}
use tally_agentic_memory.Tables.Decisions.{RecommendationRow, Approval}
use tally_agentic_memory.Store.{invoice_of, lock_invoice_and_advance, insert_event}
use tally_agentic_memory.Events.Numbering.{invoice_at}
use tally_agentic_memory.Events.Log.{Logs, quiet, one, Any}
use tally_agentic_memory.Seal.Manifest.{is_stale}
use tally_agentic_memory.Seal.Inputs.{next_revision}
use tally_agentic_memory.Seal.Approve.{
  SealResult, ApprovalCall, SealIds, recommendation_of, approval_of, request_hash_of, replayed,
  outcome_status, is_active_for, insert_seal, sealed_event, digest_of, approval_row, seal_row,
  seal_recommendation, approve_and_seal,
}

module _ (python : Python) (call : ApprovalCall) (ids : SealIds) (now : ℕ) where
  -- The answer to an approval that was not answered before.
  abbrev pub fresh : Db → RecommendationRow → SealResult
  fresh db rec = record {
    approval_id = ids.approval;
    seal_id = ids.seal;
    revision = next_revision db rec.invoice_id;
    seal_digest = digest_of python call ids now db rec;
    recommendation_type = rec.recommendation_type;
    already_sealed = false;
  }

  -- What a fresh approval leaves.
  abbrev pub Sealed : Db → RecommendationRow → SealResult → Db → Type 0
  Sealed db rec r db' =
      (r ≡ fresh db rec)
      × (db'.approvals ≡ approval_row python call ids now db rec ∷ db.approvals)
      × (db'.decision_seals ≡ insert_seal (seal_row python call ids now db rec) db.decision_seals)
      × (db'.recommendations ≡ db.recommendations)
      × (db'.ingestion_requests ≡ db.ingestion_requests)

  module _ (db : Db) (rec : RecommendationRow) (r : SealResult) (db' : Db) where
    pub sealed_inactive :
        seal_recommendation python call ids now db rec ≡ ok (r, db')
        → any (is_active_for rec.id) db.approvals ≡ false
    unfolding seal_recommendation
    sealed_inactive h = ground (arith, h)

    pub sealed_invoice :
        seal_recommendation python call ids now db rec ≡ ok (r, db')
        → (i : Invoice) × (invoice_at rec.invoice_id db.invoices ≡ some i)
    unfolding seal_recommendation lock_invoice_and_advance invoice_of
    sealed_invoice h = elim (Option-cases (invoice_at rec.invoice_id db.invoices)) [
      | inl e ↦ absurd (ground (arith, h, e))
      | inr (i, e) ↦ (i, e)
    ]

    pub seal_recommendation-Sealed :
        seal_recommendation python call ids now db rec ≡ ok (r, db') → Sealed db rec r db'
    unfolding seal_recommendation lock_invoice_and_advance insert_event
    seal_recommendation-Sealed h =
        let a = sealed_inactive h in
        elim (Option-cases (invoice_of db rec.invoice_id)) [
          | inl e ↦ absurd (ground (arith, h, a, e))
          | inr (i, e) ↦ (
            ground (arith, h, a, e),
            ground (arith, h, a, e),
            ground (arith, h, a, e),
            ground (arith, h, a, e),
            ground (arith, h, a, e),
          )
        ]

    pub seal_recommendation-Logs :
        seal_recommendation python call ids now db rec ≡ ok (r, db') → Logs Any db db'
    unfolding seal_recommendation lock_invoice_and_advance insert_event invoice_of sealed_event
    seal_recommendation-Logs h =
        let a = sealed_inactive h in
        let (i, e) = sealed_invoice h in
        one rec.invoice_id ready_for_reconstruction (outcome_status rec.recommendation_type) now
          none i
          (sealed_event python call ids now rec (next_revision db rec.invoice_id)
            (i.status_sequence + 1))
          e true refl refl (ground (arith, h, a, e)) (ground (arith, h, a, e))

  -- The answer of an earlier approval under the key.
  abbrev pub Answered : Db → SealResult → Db → Type 0
  Answered db r db' =
      (a : Approval) × (approval_of db call.idempotency_key ≡ some a)
      × (a.request_hash ≡ request_hash_of python call)
      × (r ≡ replayed a)
      × (db' ≡ db)

  -- A first approval under the key, of a recommendation that may be approved.
  abbrev pub First : Db → SealResult → Db → Type 0
  First db r db' =
      (rec : RecommendationRow) × (recommendation_of db call.recommendation_id ≡ some rec)
      × (approval_of db call.idempotency_key ≡ none)
      × (is_stale call.expected_version rec.version call.expected_digest rec.digest ≡ false)
      × (rec.state ≡ "FROZEN")
      × (seal_recommendation python call ids now db rec ≡ ok (r, db'))

  pub approve_cases :
      (db : Db) (r : SealResult) (db' : Db)
      → approve_and_seal python call ids now db ≡ ok (r, db')
      → Answered db r db' ⊎ First db r db'
  unfolding approve_and_seal
  approve_cases db r db' h = elim (Option-cases (recommendation_of db call.recommendation_id)) [
    | inl e ↦ absurd (ground (arith, h, e))
    | inr (rec, e) ↦ elim (Option-cases (approval_of db call.idempotency_key)) [
      | inr (a, f) ↦ inl (
        a,
        f,
        ground (arith, h, e, f, eq_iff a.request_hash (request_hash_of python call)),
        ground (arith, h, e, f),
        ground (arith, h, e, f),
      )
      | inl f ↦ inr (
        rec,
        e,
        f,
        ground (arith, h, e, f),
        ground (arith, h, e, f, eq_iff rec.state "FROZEN"),
        ground (arith, h, e, f),
      )
    ]
  ]

  pub approve-Logs :
      (db : Db) (r : SealResult) (db' : Db)
      → approve_and_seal python call ids now db ≡ ok (r, db')
      → Logs Any db db'
  approve-Logs db r db' h = elim (approve_cases db r db' h) [
    | inl (a, e, _, f, g) ↦ quiet (ground (arith, g)) (ground (arith, g))
    | inr (rec, e, f, g, s, k) ↦ seal_recommendation-Logs db rec r db' k
  ]
