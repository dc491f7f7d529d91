-- ===== src/System/Replay.antt =====
-- Answers that are repeated, whatever happened in between.
use mathlib.Core.Path.{subst}
use tally_agentic_memory.Prelude.{
  ℕ, ◌≡◌, sym, ap, ◌∙◌, inl, inr, String, true, none, some, ◌∷◌, arith, Bool-cases, str_eq, eq_iff,
}
use tally_agentic_memory.Prelude.Json.{Json}
use tally_agentic_memory.Prelude.Python.{Python}
use tally_agentic_memory.Prelude.Result.{ok}
use tally_agentic_memory.Tables.{Db}
use tally_agentic_memory.Tables.Decisions.{RecommendationRow, Approval}
use tally_agentic_memory.Store.{insert_event}
use tally_agentic_memory.Tasks.Frame.{Step-Frame}
use tally_agentic_memory.Seal.Approve.{
  SealResult, ApprovalCall, SealIds, recommendation_of, approval_of, approval_row, approve_and_seal,
}
use tally_agentic_memory.Seal.Effects.{approve_cases, seal_recommendation-Sealed}
use tally_agentic_memory.Seal.Answers.{answered_row, answered_recommendation, approve_again}
use tally_agentic_memory.Ingestion.Finalize.{
  FinalizeReceipt, opened_invoice, finalize_received_invoice,
}
use tally_agentic_memory.Ingestion.Effects.{
  Answered, reserve_cases, store_cases, link_cases, finalize_cases,
}
use tally_agentic_memory.Ingestion.Answers.{
  Answered-same, reserve-Answered, store-Answered, link-Answered, finalize-Answered,
}
use tally_agentic_memory.Ingestion.Replay.{finalize_answers, finalize_again}
use tally_agentic_memory.Correspondence.Sending.{send-Leaves}
use tally_agentic_memory.Correspondence.Replay.{draft-Leaves}
use tally_agentic_memory.System.History.{
  Change, extracts, approves, reserves, stores, links, finalizes, drafts, sends, History, begin,
  continue,
}

module _ (key hash : String) (j : Json) where
  Change-Answered : (db db' : Db) → Change db db' → Answered key hash j db → Answered key hash j db'
  Change-Answered db db' (extracts d t) a =
      let (_, _, _, e) = Step-Frame db db' t in Answered-same key hash j db db' e a
  Change-Answered db db' (approves python call ids now r d h) a =
      elim (approve_cases python call ids now db r db' h) [
        | inl (_, _, _, _, e) ↦ subst (Answered key hash j) (sym e) a
        | inr (rec, _, _, _, _, k) ↦
            let (_, _, _, _, e) = seal_recommendation-Sealed python call ids now db rec r db' k in
            Answered-same key hash j db db' e a
      ]
  Change-Answered db db' (reserves call iid sid v d h) a =
      reserve-Answered key hash j db db' call iid sid v h a
  Change-Answered db db' (stores call source d h) a =
      store-Answered key hash j db db' call source h a
  Change-Answered db db' (links call iid sid sha256 snapshot i d h) a =
      link-Answered key hash j db db' call iid sid sha256 snapshot i h a
  Change-Answered db db' (finalizes python command task_id event_id now i d h) a =
      finalize-Answered key hash j db db' python command task_id event_id now i h a
  Change-Answered db db' (drafts python pack prose id d h) a =
      let (_, (_, _, _, e)) = draft-Leaves python pack prose id db db' h in
      Answered-same key hash j db db' e a
  Change-Answered db db' (sends python call ids p r d q h) a =
      let (_, (_, _, _, e)) = send-Leaves python call ids db p r db' q h in
      Answered-same key hash j db db' e a

  History-Answered :
      (before after : Db)
      → History before after
      → Answered key hash j before
      → Answered key hash j after
  History-Answered before after begin a = a
  History-Answered before after (continue mid last history change) a =
      Change-Answered mid after change (History-Answered before mid history a)

-- Once the request of a received invoice was answered, whatever transactions of the ingestion, the
-- extraction, the approval and the correspondence follow, finalising it again gives the same
-- answer and changes nothing.
pub receipt_replays :
    (python : Python) (command : FinalizeReceipt) (task_id event_id again_task again_event : String)
    (now later : ℕ) (before : Db) (j : Json) (after last : Db)
    → finalize_received_invoice python command task_id event_id now before ≡ ok (j, after)
    → History after last
    → finalize_received_invoice python command again_task again_event later last ≡ ok (j, last)
receipt_replays python command task_id event_id again_task again_event now later before j after last
      h l =
    finalize_again python command again_task again_event later last j (
      History-Answered command.call.idempotency_key command.call.request_hash j after last l
        (finalize_answers python command task_id event_id now before j after h))

-- The approval under a key, and a recommendation.
abbrev Holds : String → Approval → String → RecommendationRow → Db → Type 0
Holds key a id rec db = (approval_of db key ≡ some a) × (recommendation_of db id ≡ some rec)

module _ (key : String) (a : Approval) (id : String) (rec : RecommendationRow) where
  Holds-same :
      (db db' : Db)
      → db'.approvals ≡ db.approvals
      → db'.recommendations ≡ db.recommendations
      → Holds key a id rec db
      → Holds key a id rec db'
  unfolding approval_of recommendation_of
  Holds-same db db' p s (h, k) = (ground (arith, p, h), ground (arith, s, k))

  Holds-approved :
      (db db' : Db) (b : Approval)
      → approval_of db b.idempotency_key ≡ none
      → db'.approvals ≡ b ∷ db.approvals
      → db'.recommendations ≡ db.recommendations
      → Holds key a id rec db
      → Holds key a id rec db'
  unfolding approval_of recommendation_of
  Holds-approved db db' b n p s (h, k) = (
    elim (Bool-cases (str_eq b.idempotency_key key)) [
      | inl e ↦
          let same = (eq_iff b.idempotency_key key).0 e in
          let gone : approval_of db key ≡ none = subst (λ x. approval_of db x ≡ none) same n in
          absurd (ground (arith, gone, h))
      | inr e ↦ ground (arith, p, e, h)
    ],
    ground (arith, s, k),
  )

  Holds-eq : (db db' : Db) → db' ≡ db → Holds key a id rec db → Holds key a id rec db'
  Holds-eq db db' e h = subst (Holds key a id rec) (sym e) h

  Change-Holds : (db db' : Db) → Change db db' → Holds key a id rec db → Holds key a id rec db'
  unfolding opened_invoice insert_event approval_row
  Change-Holds db db' (extracts d t) h =
      let (p, _, s, _) = Step-Frame db db' t in Holds-same db db' p s h
  Change-Holds db db' (approves python call ids now r d k) h =
      elim (approve_cases python call ids now db r db' k) [
        | inl (_, _, _, _, e) ↦ Holds-eq db db' e h
        | inr (v, _, n, _, _, k2) ↦
            let (_, p, _, s, _) = seal_recommendation-Sealed python call ids now db v r db' k2 in
            Holds-approved db db' (approval_row python call ids now db v) n p s h
      ]
  Change-Holds db db' (reserves call iid sid v d k) h =
      elim (reserve_cases call iid sid db v db' k) [
        | inl (_, _, _, _, e) ↦ Holds-eq db db' e h
        | inr (_, _, e) ↦
            Holds-same db db' (ap (λ (d : Db). d.approvals) e)
              (ap (λ (d : Db). d.recommendations) e) h
      ]
  Change-Holds db db' (stores call source d k) h = elim (store_cases call source db db' k) [
    | inl e ↦ Holds-eq db db' e h
    | inr (_, _, e) ↦
        Holds-same db db' (ap (λ (d : Db). d.approvals) e) (ap (λ (d : Db). d.recommendations) e) h
  ]
  Change-Holds db db' (links call iid sid sha256 snapshot i d k) h =
      elim (link_cases call iid sid sha256 snapshot db i db' k) [
        | inl (_, e) ↦ Holds-eq db db' e h
        | inr (_, _, _, _, e) ↦
            Holds-same db db' (ap (λ (d : Db). d.approvals) e)
              (ap (λ (d : Db). d.recommendations) e) h
      ]
  Change-Holds db db' (finalizes python command task_id event_id now i d k) h =
      elim (finalize_cases python command task_id event_id now db i db' k) [
        | inl (_, e) ↦ Holds-eq db db' e h
        | inr (_, (_, _, _, _, _, e)) ↦
            Holds-same db db' (ap (λ (d : Db). d.approvals) e)
              (ap (λ (d : Db). d.recommendations) e) h
      ]
  Change-Holds db db' (drafts python pack prose id d k) h =
      let (_, (p, _, s, _)) = draft-Leaves python pack prose id db db' k in Holds-same db db' p s h
  Change-Holds db db' (sends python call ids v r d q k) h =
      let (_, (p, _, s, _)) = send-Leaves python call ids db v r db' q k in Holds-same db db' p s h

  History-Holds :
      (before after : Db)
      → History before after
      → Holds key a id rec before
      → Holds key a id rec after
  History-Holds before after begin h = h
  History-Holds before after (continue mid last history change) h =
      Change-Holds mid after change (History-Holds before mid history h)

-- Once an approval was answered, whatever transactions of the ingestion, the extraction, the
-- approval and the correspondence follow, the same call is answered by the same approval and seal,
-- marked as already sealed, and changes nothing.
pub approval_replays :
    (python : Python) (call : ApprovalCall) (ids again : SealIds) (now later : ℕ) (before : Db)
    (r : SealResult) (after last : Db)
    → approve_and_seal python call ids now before ≡ ok (r, after)
    → History after last
    → approve_and_seal python call again later last ≡ ok (record r { already_sealed = true }, last)
approval_replays python call ids again now later before r after last h l =
    let (a, e, q, same) = answered_row python call ids now before r after h in
    let (rec, f) = answered_recommendation python call ids now before r after h in
    let (e2, f2) =
      History-Holds call.idempotency_key a call.recommendation_id rec after last l (e, f) in
    approve_again python call again later last rec a f2 e2 q ∙ ap (λ x. ok (x, last)) same
