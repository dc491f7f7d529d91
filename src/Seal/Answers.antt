-- ===== src/Seal/Answers.antt =====
-- What the answer to an approval says, and that it is given again.
use mathlib.Core.Path.{subst}
use tally_agentic_memory.Prelude.{
  ℕ, ◌≡◌, refl, inl, inr, String, true, some, List, [], ◌∷◌, find, All, arith, Bool-cases,
  Option-cases, str_eq, eq_iff,
}
use tally_agentic_memory.Prelude.Python.{Python}
use tally_agentic_memory.Prelude.Result.{ok}
use tally_agentic_memory.Tables.{Db}
use tally_agentic_memory.Tables.Decisions.{RecommendationRow, Approval, DecisionSeal}
use tally_agentic_memory.Seal.Approve.{
  SealResult, ApprovalCall, SealIds, recommendation_of, approval_of, request_hash_of, replayed,
  is_seal_of, approval_row, approve_and_seal,
}
use tally_agentic_memory.Seal.Effects.{approve_cases, seal_recommendation-Sealed}
use tally_agentic_memory.Seal.Unique.{Stored, IsSealed, approve-IsSealed}

Stored-at :
    (key : String) (approvals : List Approval) (seals : List DecisionSeal) (a : Approval)
    → find (λ b. str_eq b.idempotency_key key) approvals ≡ some a
    → All (Stored seals) approvals
    → Stored seals a
Stored-at key [] seals a h w = absurd (ground (arith, h))
Stored-at key (b ∷ approvals) seals a h (p, w) = elim (Bool-cases (str_eq b.idempotency_key key)) [
  | inl e ↦ let same : b ≡ a = ground (arith, h, e) in subst (Stored seals) same p
  | inr e ↦
      let rest : find (λ c. str_eq c.idempotency_key key) approvals ≡ some a = rw e at h in
      Stored-at key approvals seals a rest w
]

module _ (python : Python) (call : ApprovalCall) (ids : SealIds) (now : ℕ) where
  -- The approval that stands under the key after an answer.
  pub answered_row :
      (db : Db) (r : SealResult) (db' : Db)
      → approve_and_seal python call ids now db ≡ ok (r, db')
      → (a : Approval) × (approval_of db' call.idempotency_key ≡ some a)
        × (a.request_hash ≡ request_hash_of python call)
        × (replayed a ≡ record r { already_sealed = true })
  unfolding approval_of approval_row replayed
  answered_row db r db' h = elim (approve_cases python call ids now db r db' h) [
    | inl (a, e, q, f, g) ↦ (a, ground (arith, e, g), q, ground (arith, f))
    | inr (rec, e, f, g, s, k) ↦
        let (same, approvals, _, _, _) =
          seal_recommendation-Sealed python call ids now db rec r db' k in
        let own = (eq_iff call.idempotency_key call.idempotency_key).1 refl in
        (
          approval_row python call ids now db rec,
          ground (arith, approvals, own),
          refl,
          ground (arith, same),
        )
  ]

  pub answered_recommendation :
      (db : Db) (r : SealResult) (db' : Db)
      → approve_and_seal python call ids now db ≡ ok (r, db')
      → (rec : RecommendationRow) × (recommendation_of db' call.recommendation_id ≡ some rec)
  unfolding approve_and_seal recommendation_of
  answered_recommendation db r db' h =
      elim (Option-cases (recommendation_of db call.recommendation_id)) [
        | inl e ↦ absurd (ground (arith, h, e))
        | inr (rec, e) ↦ elim (approve_cases python call ids now db r db' h) [
          | inl (_, _, _, _, g) ↦ (rec, ground (arith, e, g))
          | inr (v, _, _, _, _, k) ↦
              let (_, _, _, s, _) = seal_recommendation-Sealed python call ids now db v r db' k in
              (rec, ground (arith, e, s))
        ]
      ]

  -- An approval under the key of the call, with its request's hash, is repeated.
  pub approve_again :
      (db : Db) (rec : RecommendationRow) (a : Approval)
      → recommendation_of db call.recommendation_id ≡ some rec
      → approval_of db call.idempotency_key ≡ some a
      → a.request_hash ≡ request_hash_of python call
      → approve_and_seal python call ids now db ≡ ok (replayed a, db)
  unfolding approve_and_seal
  approve_again db rec a e f h =
      let same = (eq_iff a.request_hash (request_hash_of python call)).1 h in
      ground (arith, e, f, same)

  -- Where every approval has its seal, and no two seals one recommendation: every answer, new or
  -- repeated, names a seal that the tables hold, with its approval, revision and digest.
  pub answer_stored :
      (db : Db) (r : SealResult) (db' : Db)
      → approve_and_seal python call ids now db ≡ ok (r, db')
      → IsSealed db
      → (a : Approval) × (s : DecisionSeal) × (approval_of db' call.idempotency_key ≡ some a)
        × (find (is_seal_of a.recommendation_id) db'.decision_seals ≡ some s)
        × (s.approval_id ≡ r.approval_id)
        × (s.id ≡ r.seal_id)
        × (s.revision ≡ r.revision)
        × (s.seal_digest ≡ r.seal_digest)
  unfolding approval_of replayed
  answer_stored db r db' h w =
      let (a, e, _, f) = answered_row db r db' h in
      let (_, _, _, _, stored) = approve-IsSealed python call ids now db r db' h w in
      let (s, g, (p, q, m, n)) =
        Stored-at call.idempotency_key db'.approvals db'.decision_seals a e stored in
      (
        a,
        s,
        e,
        g,
        ground (arith, p, f),
        ground (arith, q, f),
        ground (arith, m, f),
        ground (arith, n, f),
      )
