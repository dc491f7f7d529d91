-- ===== src/Seal/Made.antt =====
-- When an approval makes a new seal, and what it adds.
use tally_agentic_memory.Prelude.{
  ℕ, ==_iff, ◌≡◌, ◌≢◌, ◌↔◌, refl, sym, ap, ◌∙◌, inl, inr, String, false, none, some, List, [], ◌∷◌,
  any, find, All, arith, Bool-cases, str_eq, eq_iff,
}
use tally_agentic_memory.Prelude.Python.{Python}
use tally_agentic_memory.Prelude.Result.{ok, Result-cases}
use tally_agentic_memory.Tables.{Invoice, Db}
use tally_agentic_memory.Tables.Decisions.{RecommendationRow, Approval, DecisionSeal}
use tally_agentic_memory.Store.{invoice_of, lock_invoice_and_advance}
use tally_agentic_memory.Events.Numbering.{invoice_at}
use tally_agentic_memory.Seal.Manifest.{is_stale}
use tally_agentic_memory.Seal.Approve.{
  SealResult, ApprovalCall, SealIds, recommendation_of, approval_of, replayed, is_active_for,
  approval_row, seal_row, seal_recommendation, approve_and_seal,
}
use tally_agentic_memory.Seal.Effects.{
  approve_cases, sealed_inactive, sealed_invoice, seal_recommendation-Sealed,
}
use tally_agentic_memory.Seal.Unique.{IsSealed, no_seal}

current_iff : (v w : ℕ) (d e : String) → (is_stale v w d e ≡ false) ↔ ((v ≡ w) × (d ≡ e))
unfolding is_stale
current_iff v w d e = (
  λ h. (ground (arith, h, ==_iff v w), ground (arith, h, eq_iff d e)),
  λ h. ground (arith, (==_iff v w).1 h.0, (eq_iff d e).1 h.1),
)

unused_iff :
    (key : String) (approvals : List Approval)
    → (find (λ a. str_eq a.idempotency_key key) approvals ≡ none)
      ↔ All (λ a. a.idempotency_key ≢ key) approvals
unused_iff key [] = (λ h. tt, λ h. refl)
unused_iff key (a ∷ approvals) =
    let (to, from) = unused_iff key approvals in
    let (eq, test) = eq_iff a.idempotency_key key in
    (
      λ h. (λ e. absurd (ground (arith, h, test e)), to (ground (arith, h))),
      λ (n, w). elim (Bool-cases (str_eq a.idempotency_key key)) [
        | inl e ↦ absurd (n (eq e))
        | inr e ↦ rw e (from w)
      ],
    )

inactive_iff :
    (id : String) (approvals : List Approval)
    → (any (is_active_for id) approvals ≡ false)
      ↔ All (λ a. ¬ ((a.recommendation_id ≡ id) × (a.state ≡ "APPROVED"))) approvals
inactive_iff id [] = (λ h. tt, λ h. refl)
inactive_iff id (a ∷ approvals) =
    let (to, from) = inactive_iff id approvals in
    let (same, test) = eq_iff a.recommendation_id id in
    let (approved, check) = eq_iff a.state "APPROVED" in
    (
      λ h. (λ (p, q). absurd (ground (arith, h, test p, check q)), to (ground (arith, h))),
      λ (n, w). elim (Bool-cases (is_active_for id a)) [
        | inl e ↦ absurd (n (same (ground (arith, e)), approved (ground (arith, e))))
        | inr e ↦ rw e (from w)
      ],
    )

find_own :
    (id : String) (recs : List RecommendationRow) (rec : RecommendationRow)
    → find (λ r. str_eq r.id id) recs ≡ some rec
    → rec.id ≡ id
find_own id [] rec h = absurd (ground (arith, h))
find_own id (v ∷ recs) rec h = elim (Bool-cases (str_eq v.id id)) [
  | inl e ↦
      let same : v ≡ rec = ground (arith, h, e) in ap (λ r. r.id) (sym same) ∙ (eq_iff v.id id).0 e
  | inr e ↦ find_own id recs rec (ground (arith, h, e))
]

module _ (python : Python) (call : ApprovalCall) (ids : SealIds) (now : ℕ) where
  -- What must hold for an approval under a new key.
  abbrev pub IsApprovable : Db → RecommendationRow → Type 0
  IsApprovable db rec =
      (find (λ r. str_eq r.id call.recommendation_id) db.recommendations ≡ some rec)
      × All (λ a. a.idempotency_key ≢ call.idempotency_key) db.approvals
      × ((call.expected_version ≡ rec.version) × (call.expected_digest ≡ rec.digest))
      × (rec.state ≡ "FROZEN")
      × All (λ a. ¬ ((a.recommendation_id ≡ rec.id) × (a.state ≡ "APPROVED"))) db.approvals
      × ((i : Invoice) × (invoice_at rec.invoice_id db.invoices ≡ some i))

  -- The answer is new: it is not of a call before.
  abbrev NewAnswer : Db → Type 0
  NewAnswer db =
      (r : SealResult) × (db' : Db) × (approve_and_seal python call ids now db ≡ ok (r, db'))
      × (r.already_sealed ≡ false)

  -- One approval and one seal are added, of the recommendation and as the answer says.
  abbrev pub Adds : SealResult → Db → Db → Type 0
  Adds r db db' =
      (a : Approval) × (s : DecisionSeal) × (db'.approvals ≡ a ∷ db.approvals)
      × (db'.decision_seals ≡ s ∷ db.decision_seals)
      × ((a.recommendation_id ≡ call.recommendation_id) × (a.state ≡ "APPROVED"))
      × ((a.idempotency_key ≡ call.idempotency_key) × (a.id ≡ r.approval_id))
      × ((s.recommendation_id ≡ call.recommendation_id) × (s.approval_id ≡ r.approval_id))
      × (s.id ≡ r.seal_id)
      × (s.revision ≡ r.revision)
      × (s.seal_digest ≡ r.seal_digest)

  -- The call makes a new seal.
  abbrev pub MakesSeal : Db → Type 0
  MakesSeal db =
      (r : SealResult) × (db' : Db) × (approve_and_seal python call ids now db ≡ ok (r, db'))
      × (r.already_sealed ≡ false)
      × Adds r db db'

  approvable_made : (db : Db) (rec : RecommendationRow) → IsApprovable db rec → NewAnswer db
  unfolding approve_and_seal seal_recommendation lock_invoice_and_advance invoice_of
      recommendation_of approval_of
  approvable_made db rec (f, unused, c, z, inactive, (i, e)) =
      let n = (unused_iff call.idempotency_key db.approvals).1 unused in
      let a = (inactive_iff rec.id db.approvals).1 inactive in
      let current =
        (current_iff call.expected_version rec.version call.expected_digest rec.digest).1 c in
      let frozen = (eq_iff rec.state "FROZEN").1 z in
      elim (Result-cases (approve_and_seal python call ids now db)) [
        | inl ((r, db'), h) ↦ (r, db', h, ground (arith, h, f, n, current, frozen, a, e))
        | inr (x, h) ↦ absurd (ground (arith, h, f, n, current, frozen, a, e))
      ]

  made-IsApprovable :
      (db : Db) (r : SealResult) (db' : Db)
      → approve_and_seal python call ids now db ≡ ok (r, db')
      → r.already_sealed ≡ false
      → (rec : RecommendationRow) × IsApprovable db rec
        × (seal_recommendation python call ids now db rec ≡ ok (r, db'))
  unfolding replayed recommendation_of approval_of
  made-IsApprovable db r db' h new = elim (approve_cases python call ids now db r db' h) [
    | inl (a, e, _, f, g) ↦ absurd (ground (arith, new, f))
    | inr (rec, e, f, g, s, k) ↦ (
      rec,
      (
        e,
        (unused_iff call.idempotency_key db.approvals).0 f,
        (current_iff call.expected_version rec.version call.expected_digest rec.digest).0 g,
        s,
        (inactive_iff rec.id db.approvals).0 (sealed_inactive python call ids now db rec r db' k),
        sealed_invoice python call ids now db rec r db' k,
      ),
      k,
    )
  ]

  -- Where every seal has its approval, a new answer adds its seal: the insert meets no conflict.
  sealed_added :
      (db : Db) (rec : RecommendationRow) (r : SealResult) (db' : Db)
      → find (λ r. str_eq r.id call.recommendation_id) db.recommendations ≡ some rec
      → seal_recommendation python call ids now db rec ≡ ok (r, db')
      → IsSealed db
      → Adds r db db'
  unfolding approval_row seal_row
  sealed_added db rec r db' e k (_, _, _, w, _) =
      let (same, approvals, seals, _, _) =
        seal_recommendation-Sealed python call ids now db rec r db' k in
      let own = find_own call.recommendation_id db.recommendations rec e in
      let none_yet =
        no_seal rec.id db.approvals db.decision_seals
          (sealed_inactive python call ids now db rec r db' k) w in
      (
        approval_row python call ids now db rec,
        seal_row python call ids now db rec,
        approvals,
        ground (arith, seals, none_yet),
        (own, refl),
        (refl, ground (arith, same)),
        (own, ground (arith, same)),
        ground (arith, same),
        ground (arith, same),
        ground (arith, same),
      )

  -- In tables where the approvals and the seals belong together: a call makes a new seal exactly if its
  -- recommendation is there, FROZEN, at the version and the digest that the approver saw, and of an
  -- invoice that is there, no approval has its key and no active approval is of that recommendation.
  -- To make a new seal is to add one approval and one seal of that recommendation, with the
  -- identities, the revision and the digest that the answer names.
  pub made_exactly :
      (db : Db) → IsSealed db → MakesSeal db ↔ ((rec : RecommendationRow) × IsApprovable db rec)
  made_exactly db w = (
    λ (r, db', h, new, _). let (rec, p, _) = made-IsApprovable db r db' h new in (rec, p),
    λ (rec, p).
        let (r, db', h, new) = approvable_made db rec p in
        let (v, q, k) = made-IsApprovable db r db' h new in
        (r, db', h, new, sealed_added db v r db' q.0 k w),
  )
