-- ===== src/Correspondence/Delivery.antt =====
-- What reaches the provider, and when.
use mathlib.Core.Path.{subst}
use tally_agentic_memory.Prelude.{
  ◌≡◌, ◌≢◌, refl, inl, inr, String, true, not, Option, none, some, List, [], ◌∷◌, ◌++◌, find, All,
  arith, Bool-cases, Option-cases, str_eq, eq_iff,
}
use tally_agentic_memory.Prelude.Python.{Python}
use tally_agentic_memory.Tables.{Db, Source}
use tally_agentic_memory.Tables.Letters.{Draft}
use tally_agentic_memory.Tables.Decisions.{ReconstructionRow, RuleRow}
use tally_agentic_memory.Ingestion.Requests.{is_pdf_of}
use tally_agentic_memory.Correspondence.Gates.{GateResult, evaluate_send_gates, send_gates}
use tally_agentic_memory.Correspondence.Permission.{Passed, permitted-Passed}
use tally_agentic_memory.Correspondence.Fresh.{
  latest_of, mcp_gate, vector_gate, source_gate, build_fresh_gate_checks,
}
use tally_agentic_memory.Correspondence.Provider.{Provider}
use tally_agentic_memory.Correspondence.Send.Emission.{
  SendResult, SendCall, SendIds, gate_of, draft_of, attempt_of,
}
use tally_agentic_memory.Correspondence.Send.{
  gate_results, with_event, send_blocked, approve_and_send,
}

module _ (python : Python) (call : SendCall) (ids : SendIds) where
  pub with_event_provider :
      (r : SendResult) (o : Option Db) (p : Provider) → (with_event python call ids r o p).1 ≡ p
  with_event_provider r none p = refl
  with_event_provider r (some db) p = refl

  blocked_provider :
      (d : Draft) (why : Option String) (db : Db) (p : Provider)
      → (send_blocked python call ids d why db p).1 ≡ p
  unfolding send_blocked
  blocked_provider d why db p = with_event_provider _ _ p

  -- A provider that changes was called by a first attempt whose gates all passed.
  called_permitted :
      (db : Db) (p : Provider)
      → (approve_and_send python call ids db p).1 ≢ p
      → (d : Draft) × (draft_of db call.draft_id ≡ some d)
        × (attempt_of db call.idempotency_key ≡ none)
        × ((evaluate_send_gates (gate_results python call ids d)).permitted ≡ true)
  unfolding approve_and_send
  called_permitted db p n = elim (Option-cases (draft_of db call.draft_id)) [
    | inl e ↦ absurd (n (ground (arith, e)))
    | inr (d, e) ↦ elim (Option-cases (attempt_of db call.idempotency_key)) [
      | inr (a, f) ↦ absurd (n (ground (arith, e, f)))
      | inl f ↦ elim (Bool-cases (evaluate_send_gates (gate_results python call ids d)).permitted) [
        | inl g ↦ (d, e, f, g)
        | inr g ↦ absurd (n (ground (arith, e, f, g, blocked_provider d)))
      ]
    ]
  ]

  -- The results that the gates read, with the fresh checks of an invoice.
  abbrev fresh_results : Db → String → Draft → List (String × GateResult)
  fresh_results db invoice_id d =
      build_fresh_gate_checks db invoice_id
      ++ gate_of "SECOND_AUTHORIZATION" (not (str_eq call.second_approver_display ""))
        ∷ gate_of "LOCKED_FIELDS" (str_eq d.validation_state "VALIDATED")
        ∷ []

  module _ (db : Db) (invoice_id : String) (d : Draft) where
    computed_gates :
        All (Passed (fresh_results db invoice_id d)) send_gates
        → (call.second_approver_display ≢ "") × (d.validation_state ≡ "VALIDATED")
    unfolding build_fresh_gate_checks
    computed_gates ((r, e, s), ((q, f, t), _)) = (
      λ x. absurd (ground (arith, e, s, (eq_iff call.second_approver_display "").1 x)),
      ground (arith, f, t, eq_iff d.validation_state "VALIDATED"),
    )

    memory_gate :
        All (Passed (fresh_results db invoice_id d)) send_gates
        → (v : ReconstructionRow) × (latest_of invoice_id db.reconstructions ≡ some v)
          × (v.state ≡ "COMPLETE")
    unfolding build_fresh_gate_checks mcp_gate
    memory_gate (_, (_, ((r, e, s), _))) =
        elim (Option-cases (latest_of invoice_id db.reconstructions)) [
          | inl n ↦ absurd (ground (arith, e, s, n))
          | inr (v, n) ↦ (v, n, ground (arith, e, s, n, eq_iff v.state "COMPLETE"))
        ]

    rule_gate :
        All (Passed (fresh_results db invoice_id d)) send_gates
        → (v : RuleRow) × (find
              (λ (x : RuleRow). str_eq x.invoice_id invoice_id)
              db.applicable_rules
            ≡ some v)
          × (v.validation_state ≡ "VERIFIED")
    unfolding build_fresh_gate_checks vector_gate
    rule_gate (_, (_, (_, ((r, e, s), _)))) =
        elim (Option-cases
          (find (λ (x : RuleRow). str_eq x.invoice_id invoice_id) db.applicable_rules)) [
            | inl n ↦ absurd (ground (arith, e, s, n))
            | inr (v, n) ↦ (v, n, ground (arith, e, s, n, eq_iff v.validation_state "VERIFIED"))
          ]

    bytes_gate :
        All (Passed (fresh_results db invoice_id d)) send_gates
        → (v : Source) × (find (is_pdf_of invoice_id) db.sources ≡ some v)
          × (v.preservation_status ≡ "VERSION_VERIFIED")
    unfolding build_fresh_gate_checks source_gate
    bytes_gate (_, (_, (_, (_, ((r, e, s), _))))) =
        elim (Option-cases (find (is_pdf_of invoice_id) db.sources)) [
          | inl n ↦ absurd (ground (arith, e, s, n))
          | inr (v, n) ↦
              (v, n, ground (arith, e, s, n, eq_iff v.preservation_status "VERSION_VERIFIED"))
        ]

  -- With the fresh checks of an invoice: the provider is changed, whatever becomes of the
  -- transaction, only by a first attempt under the key, with a second approver, for a draft that is
  -- VALIDATED, and where the invoice's latest reconstruction is COMPLETE, its rule VERIFIED and its
  -- source VERSION_VERIFIED.
  pub delivery_gated :
      (db : Db) (invoice_id : String) (p : Provider)
      → call.gate_checks ≡ build_fresh_gate_checks db invoice_id
      → (approve_and_send python call ids db p).1 ≢ p
      → (attempt_of db call.idempotency_key ≡ none)
        × (call.second_approver_display ≢ "")
        × ((d : Draft) × (draft_of db call.draft_id ≡ some d) × (d.validation_state ≡ "VALIDATED"))
        × ((v : ReconstructionRow) × (latest_of invoice_id db.reconstructions ≡ some v)
            × (v.state ≡ "COMPLETE"))
        × ((v : RuleRow) × (find
                (λ (x : RuleRow). str_eq x.invoice_id invoice_id)
                db.applicable_rules
              ≡ some v)
            × (v.validation_state ≡ "VERIFIED"))
        × ((v : Source) × (find (is_pdf_of invoice_id) db.sources ≡ some v)
            × (v.preservation_status ≡ "VERSION_VERIFIED"))
  unfolding gate_results
  delivery_gated db invoice_id p fresh changed =
      let (d, e, f, g) = called_permitted db p changed in
      let all_passed =
        subst
          (λ checks.
            All
              (Passed (
                checks
                ++ gate_of "SECOND_AUTHORIZATION" (not (str_eq call.second_approver_display ""))
                  ∷ gate_of "LOCKED_FIELDS" (str_eq d.validation_state "VALIDATED")
                  ∷ []))
              send_gates)
          fresh ((permitted-Passed (gate_results python call ids d)).0.0 g) in
      let (approver, validated) = computed_gates db invoice_id d all_passed in
      (
        f,
        approver,
        (d, e, validated),
        memory_gate db invoice_id d all_passed,
        rule_gate db invoice_id d all_passed,
        bytes_gate db invoice_id d all_passed,
      )
