-- ===== src/Seal/Approve.antt =====
-- src/platform/authority_seal_repository.py: approve_and_seal, one transaction.
use tally_agentic_memory.Prelude.{
  ℕ, String, Bool, true, false, not, ◌&&◌, Option, none, some, List, [], ◌∷◌, any, find, str_eq,
  if◌then◌else◌,
}
use tally_agentic_memory.Prelude.Int.{pos}
use tally_agentic_memory.Prelude.Python.{Python, concat}
use tally_agentic_memory.Prelude.Result.{Result, ok, err}
use tally_agentic_memory.Intake.{ready_for_reconstruction, TaskState}
use tally_agentic_memory.Tables.{Event, Db}
use tally_agentic_memory.Tables.Decisions.{RecommendationRow, Approval, DecisionSeal, QueryLog}
use tally_agentic_memory.Store.{lock_invoice_and_advance, insert_event, object_ref, one_ref}
use tally_agentic_memory.Seal.Manifest.{
  build_seal_manifest, seal_digest, approval_request_hash, is_stale,
}
use tally_agentic_memory.Seal.Inputs.{
  claim_set_version_of, source_ref_of, next_revision, seal_inputs, bound_refs,
}

pub record SealResult : Type 0 where
  pub approval_id : String
  pub seal_id : String
  pub revision : ℕ
  pub seal_digest : String
  pub recommendation_type : String
  pub already_sealed : Bool

-- The arguments of `approve_and_seal`.
pub record ApprovalCall : Type 0 where
  pub recommendation_id : String
  pub expected_version : ℕ
  pub expected_digest : String
  pub idempotency_key : String
  pub approver_user_id : Option String
  pub approver_display : String
  pub approver_kind : String
  pub decision : String

-- The values of `uuid4()`.
pub record SealIds : Type 0 where
  pub approval : String
  pub seal : String
  pub event : String

unfoldable pub recommendation_of : Db → String → Option RecommendationRow
recommendation_of db id = find (λ r. str_eq r.id id) db.recommendations

unfoldable pub approval_of : Db → String → Option Approval
approval_of db key = find (λ a. str_eq a.idempotency_key key) db.approvals

unfoldable pub request_hash_of : Python → ApprovalCall → String
unfolding approval_request_hash
request_hash_of python call =
    approval_request_hash python call.recommendation_id call.expected_version call.expected_digest
      call.decision

unfoldable pub replayed : Approval → SealResult
replayed a = record {
  approval_id = a.id;
  seal_id = a.response_snapshot.seal_id;
  revision = a.response_snapshot.revision;
  seal_digest = a.response_snapshot.seal_digest;
  recommendation_type = a.response_snapshot.recommendation_type;
  already_sealed = true;
}

-- `outcome_status`
unfoldable pub outcome_status : String → String
outcome_status rec_type =
    if str_eq rec_type "DISPUTE"
    then "DISPUTED"
    else if str_eq rec_type "APPROVE_FOR_PAYMENT"
    then "APPROVED_FOR_PAYMENT"
    else "READY_TO_SEND"

-- `f"Decision sealed and {outcome_status.lower().replace('_',' ')}"`
abbrev pub sealed_summary : String → String
sealed_summary rec_type =
    if str_eq rec_type "DISPUTE"
    then "Decision sealed and disputed"
    else if str_eq rec_type "APPROVE_FOR_PAYMENT"
    then "Decision sealed and approved for payment"
    else "Decision sealed and ready to send"

-- The index `approval_active_idx`: one APPROVED approval of a recommendation.
abbrev pub is_active_for : String → Approval → Bool
is_active_for recommendation_id a =
    str_eq a.recommendation_id recommendation_id && str_eq a.state "APPROVED"

-- The index `seal_recommendation_idx`, which `ON CONFLICT` names.
abbrev pub is_seal_of : String → DecisionSeal → Bool
is_seal_of recommendation_id s = str_eq s.recommendation_id recommendation_id

abbrev pub insert_seal : DecisionSeal → List DecisionSeal → List DecisionSeal
insert_seal s seals = if any (is_seal_of s.recommendation_id) seals then seals else s ∷ seals

module _ (python : Python) (call : ApprovalCall) (ids : SealIds) (now : ℕ) where
  unfoldable pub sealed_event : RecommendationRow → ℕ → ℕ → Event
  unfolding outcome_status
  sealed_event rec revision sequence = record {
    id = ids.event;
    invoice_id = rec.invoice_id;
    sequence = sequence;
    event_type = "decision.sealed";
    occurred_at = now;
    role = "DECISION_ENGINE";
    task = "SEAL_DECISION";
    tool_display_name = some "CockroachDB transaction";
    state = TaskState.completed;
    aggregate_status = outcome_status rec.recommendation_type;
    summary = sealed_summary rec.recommendation_type;
    initiated_by = none;
    actor_display = call.approver_display;
    input_object_refs = one_ref (object_ref "recommendation" rec.id 1);
    produced_object_refs = one_ref (object_ref "decision_seal" ids.seal revision);
    output_count = none;
    public_error = none;
  }

  unfoldable pub digest_of : Db → RecommendationRow → String
  unfolding seal_digest build_seal_manifest next_revision
  digest_of db rec = seal_digest python (
      build_seal_manifest python
        (seal_inputs python db rec call.approver_display call.approver_kind)
        (next_revision db rec.invoice_id))

  unfoldable pub approval_row : Db → RecommendationRow → Approval
  unfolding request_hash_of
  approval_row db rec = record {
    id = ids.approval;
    invoice_id = rec.invoice_id;
    reconstruction_id = rec.reconstruction_id;
    recommendation_id = rec.id;
    recommendation_version = rec.version;
    recommendation_digest = rec.digest;
    idempotency_key = call.idempotency_key;
    request_hash = request_hash_of python call;
    approver_user_id = call.approver_user_id;
    approver_display = call.approver_display;
    approver_kind = call.approver_kind;
    decision = call.decision;
    state = "APPROVED";
    response_snapshot = record {
      seal_id = ids.seal;
      revision = next_revision db rec.invoice_id;
      seal_digest = digest_of db rec;
      recommendation_type = rec.recommendation_type;
    };
  }

  unfoldable pub seal_row : Db → RecommendationRow → DecisionSeal
  unfolding bound_refs
  seal_row db rec = record {
    id = ids.seal;
    invoice_id = rec.invoice_id;
    reconstruction_id = rec.reconstruction_id;
    recommendation_id = rec.id;
    recommendation_version = rec.version;
    applicable_rule_id = rec.applicable_rule_id;
    claim_set_version = claim_set_version_of db rec.invoice_id;
    approval_id = ids.approval;
    approver_display = call.approver_display;
    revision = next_revision db rec.invoice_id;
    seal_digest = digest_of db rec;
    bound_object_refs =
        bound_refs (seal_inputs python db rec call.approver_display call.approver_kind);
    invoice_source_ref_private = source_ref_of db rec.invoice_id;
    public_summary = concat (
        "Decision sealed: "
        ∷ rec.recommendation_type
        ∷ " · revision "
        ∷ python.decimal (pos (next_revision db rec.invoice_id))
        ∷ []);
  }

  unfoldable pub audit_row : Db → RecommendationRow → QueryLog
  audit_row db rec = record {
    kind = "audit";
    tag = "seal";
    sql_text = concat (
        "APPROVE & SEAL · rec "
        ∷ call.recommendation_id
        ∷ " · rev "
        ∷ python.decimal (pos (next_revision db rec.invoice_id))
        ∷ " · by "
        ∷ call.approver_display
        ∷ []);
    actor = call.approver_display;
    ok = true;
  }

  -- Steps 4 to 6, for a recommendation that may be approved. The index on active approvals raises.
  unfoldable pub seal_recommendation : Db → RecommendationRow → Result {0} String (SealResult × Db)
  unfolding sealed_event approval_row seal_row audit_row
  seal_recommendation db rec =
      if any (is_active_for rec.id) db.approvals
      then err "approval_active_idx"
      else let written : Db = record db {
        approvals = approval_row db rec ∷ db.approvals;
        decision_seals = insert_seal (seal_row db rec) db.decision_seals;
      } in
        let status = outcome_status rec.recommendation_type in
        elim (lock_invoice_and_advance rec.invoice_id ready_for_reconstruction status 1 now none
          written) [
            | none ↦ err "INVOICE_NOT_FOUND"
            | some (sequence, advanced) ↦
                let logged =
                  insert_event (sealed_event rec (next_revision db rec.invoice_id) sequence)
                    advanced in
                ok (
                  record {
                    approval_id = ids.approval;
                    seal_id = ids.seal;
                    revision = next_revision db rec.invoice_id;
                    seal_digest = digest_of db rec;
                    recommendation_type = rec.recommendation_type;
                    already_sealed = false;
                  },
                  record logged { query_log = audit_row db rec ∷ db.query_log },
                )
          ]

  unfoldable pub approve_and_seal : Db → Result {0} String (SealResult × Db)
  unfolding replayed
  approve_and_seal db = elim (recommendation_of db call.recommendation_id) [
    | none ↦ err "RECOMMENDATION_NOT_FOUND"
    | some rec ↦ elim (approval_of db call.idempotency_key) [
      | some a ↦
          if str_eq a.request_hash (request_hash_of python call)
          then ok (replayed a, db)
          else err "IDEMPOTENCY_CONFLICT"
      | none ↦
          if is_stale call.expected_version rec.version call.expected_digest rec.digest
          then err "RECOMMENDATION_STALE"
          else if not (str_eq rec.state "FROZEN")
          then err "RECOMMENDATION_NOT_FROZEN"
          else seal_recommendation db rec
    ]
  ]
