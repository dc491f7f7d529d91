-- ===== src/Seal/Unique.antt =====
-- The invariant of the approvals and the seals.
use mathlib.Core.Path.{subst}
use tally_agentic_memory.Prelude.{
  ℕ, ◌<◌, ◌≡◌, ◌≢◌, refl, sym, ◌∙◌, inl, inr, String, true, false, some, List, [], ◌∷◌, any, find,
  All, Pairwise, arith, Bool-cases, str_eq, eq_iff,
}
use tally_agentic_memory.Prelude.Python.{Python}
use tally_agentic_memory.Prelude.Result.{ok}
use tally_agentic_memory.Tables.{Db}
use tally_agentic_memory.Tables.Decisions.{RecommendationRow, Approval, DecisionSeal}
use tally_agentic_memory.Seal.Inputs.{max_revision, next_revision}
use tally_agentic_memory.Seal.Approve.{
  SealResult, ApprovalCall, SealIds, is_active_for, is_seal_of, insert_seal, approval_row, seal_row,
  approve_and_seal,
}
use tally_agentic_memory.Seal.Effects.{
  Sealed, approve_cases, sealed_inactive, seal_recommendation-Sealed,
}

-- Approvals are of different recommendations.
abbrev pub Distinct : Approval → Approval → Type 0
Distinct a b = a.recommendation_id ≢ b.recommendation_id

abbrev pub IsApproved : Approval → Type 0
IsApproved a = a.state ≡ "APPROVED"

-- A later seal has another recommendation, and a greater revision where the invoice is the same.
abbrev pub Follows : DecisionSeal → DecisionSeal → Type 0
Follows s t =
    (s.recommendation_id ≢ t.recommendation_id)
    × (s.invoice_id ≡ t.invoice_id → t.revision < s.revision)

-- The seal of a recommendation says what its approval answers.
abbrev pub Answers : Approval → DecisionSeal → Type 0
Answers a s =
    (s.approval_id ≡ a.id)
    × (s.id ≡ a.response_snapshot.seal_id)
    × (s.revision ≡ a.response_snapshot.revision)
    × (s.seal_digest ≡ a.response_snapshot.seal_digest)

abbrev pub Stored : List DecisionSeal → Approval → Type 0
Stored seals a =
    (s : DecisionSeal) × (find (is_seal_of a.recommendation_id) seals ≡ some s) × Answers a s

abbrev pub HasApproval : List Approval → DecisionSeal → Type 0
HasApproval approvals s = any (is_active_for s.recommendation_id) approvals ≡ true

abbrev pub SealedTables : List Approval → List DecisionSeal → Type 0
SealedTables approvals seals =
    Pairwise Distinct approvals
    × All IsApproved approvals
    × Pairwise Follows seals
    × All (HasApproval approvals) seals
    × All (Stored seals) approvals

abbrev pub IsSealed : Db → Type 0
IsSealed db = SealedTables db.approvals db.decision_seals

-- A recommendation with no active approval is that of no approval.
Distinct-all :
    (id : String) (a : Approval) (bs : List Approval)
    → a.recommendation_id ≡ id
    → any (is_active_for id) bs ≡ false
    → All IsApproved bs
    → All (Distinct a) bs
Distinct-all id a [] e h w = tt
Distinct-all id a (b ∷ bs) e h (p, w) = (
  λ x. absurd (
      ground
        (arith, h, (eq_iff b.recommendation_id id).1 (sym x ∙ e), (eq_iff b.state "APPROVED").1 p)),
  Distinct-all id a bs e (ground (arith, h)) w,
)

-- Nor is there a seal of it.
pub no_seal :
    (id : String) (approvals : List Approval) (seals : List DecisionSeal)
    → any (is_active_for id) approvals ≡ false
    → All (HasApproval approvals) seals
    → any (is_seal_of id) seals ≡ false
no_seal id approvals [] h w = refl
no_seal id approvals (s ∷ seals) h (p, w) = elim (Bool-cases (is_seal_of id s)) [
  | inl e ↦
      let q : any (is_active_for id) approvals ≡ true =
        subst (λ x. any (is_active_for x) approvals ≡ true) ((eq_iff s.recommendation_id id).0 e)
          p in
      absurd (ground (arith, h, q))
  | inr e ↦ rw e (no_seal id approvals seals h w)
]

-- The next revision is above those of the invoice.
below_max :
    (invoice : String) (seals : List DecisionSeal) (s : DecisionSeal)
    → s.invoice_id ≡ invoice
    → max_revision invoice seals < s.revision
    → any (is_seal_of s.recommendation_id) seals ≡ false
    → All (Follows s) seals
below_max invoice [] s e h n = tt
below_max invoice (t ∷ seals) s e h n = (
  (
    λ x. absurd (ground (arith, n, (eq_iff t.recommendation_id s.recommendation_id).1 (sym x))),
    λ x. ground (arith, h, (eq_iff t.invoice_id invoice).1 (sym x ∙ e)),
  ),
  below_max invoice seals s e (ground (arith, h)) (ground (arith, n)),
)

HasApproval-more :
    (a : Approval) (approvals : List Approval) (seals : List DecisionSeal)
    → All (HasApproval approvals) seals
    → All (HasApproval (a ∷ approvals)) seals
HasApproval-more a approvals [] w = tt
HasApproval-more a approvals (s ∷ seals) (p, w) =
    (ground (arith, p), HasApproval-more a approvals seals w)

Stored-more :
    (b : Approval) (s : DecisionSeal) (approvals : List Approval) (seals : List DecisionSeal)
    → s.recommendation_id ≡ b.recommendation_id
    → All (Distinct b) approvals
    → All (Stored seals) approvals
    → All (Stored (s ∷ seals)) approvals
Stored-more b s [] seals e d w = tt
Stored-more b s (a ∷ approvals) seals e (n, d) ((t, f, g), w) = (
  (
    t,
    elim (Bool-cases (str_eq s.recommendation_id a.recommendation_id)) [
      | inl q ↦ absurd (n (sym e ∙ (eq_iff s.recommendation_id a.recommendation_id).0 q))
      | inr q ↦ rw q f
    ],
    g,
  ),
  Stored-more b s approvals seals e d w,
)

module _ (b : Approval) (s : DecisionSeal) where
  -- A new approval and its seal, of a recommendation that has none.
  SealedTables-insert :
      (approvals : List Approval) (seals : List DecisionSeal)
      → s.recommendation_id ≡ b.recommendation_id
      → b.state ≡ "APPROVED"
      → Answers b s
      → max_revision s.invoice_id seals < s.revision
      → any (is_active_for b.recommendation_id) approvals ≡ false
      → SealedTables approvals seals
      → SealedTables (b ∷ approvals) (insert_seal s seals)
  SealedTables-insert approvals seals e p q m n (d, a, f, h, w) =
      let own : str_eq s.recommendation_id b.recommendation_id ≡ true =
        (eq_iff s.recommendation_id b.recommendation_id).1 e in
      let active : str_eq b.state "APPROVED" ≡ true = (eq_iff b.state "APPROVED").1 p in
      let back : str_eq b.recommendation_id s.recommendation_id ≡ true =
        (eq_iff b.recommendation_id s.recommendation_id).1 (sym e) in
      let none_yet : any (is_seal_of s.recommendation_id) seals ≡ false =
        subst (λ x. any (is_seal_of x) seals ≡ false) (sym e)
          (no_seal b.recommendation_id approvals seals n h) in
      let apart = Distinct-all b.recommendation_id b approvals refl n a in
      let inserted : insert_seal s seals ≡ s ∷ seals = rw none_yet refl in
      subst (SealedTables (b ∷ approvals)) (sym inserted) (
        (apart, d),
        (p, a),
        (below_max s.invoice_id seals s refl m none_yet, f),
        (ground (arith, back, active), HasApproval-more b approvals seals h),
        ((s, ground (arith, own), q), Stored-more b s approvals seals e apart w),
      )

module _ (python : Python) (call : ApprovalCall) (ids : SealIds) (now : ℕ) where
  seal_row-IsSealed :
      (db : Db) (rec : RecommendationRow) (r : SealResult) (db' : Db)
      → Sealed python call ids now db rec r db'
      → any (is_active_for rec.id) db.approvals ≡ false
      → IsSealed db
      → IsSealed db'
  unfolding approval_row seal_row next_revision
  seal_row-IsSealed db rec r db' (_, a, s, _, _) n w =
      let b = approval_row python call ids now db rec in
      let t = seal_row python call ids now db rec in
      subst (λ x. SealedTables x db'.decision_seals) (sym a)
        (subst (SealedTables (b ∷ db.approvals)) (sym s) (
          SealedTables-insert b t db.approvals db.decision_seals refl refl (refl, refl, refl, refl)
            (omega arith) n w))

  -- Every approval keeps the invariant.
  pub approve-IsSealed :
      (db : Db) (r : SealResult) (db' : Db)
      → approve_and_seal python call ids now db ≡ ok (r, db')
      → IsSealed db
      → IsSealed db'
  approve-IsSealed db r db' h w = elim (approve_cases python call ids now db r db' h) [
    | inl (a, e, _, f, g) ↦ subst IsSealed (sym g) w
    | inr (rec, e, f, g, s, k) ↦
        seal_row-IsSealed db rec r db'
          (seal_recommendation-Sealed python call ids now db rec r db' k)
          (sealed_inactive python call ids now db rec r db' k) w
  ]
